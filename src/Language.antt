-- ===== src/Language.antt =====
-- Checks of cpplint.py that look at the language, not at its layout.
pub mod Namespaces
pub mod Virtual
