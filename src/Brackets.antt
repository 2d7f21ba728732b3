-- ===== src/Brackets.antt =====
-- The matching of brackets in cpplint.py.
pub mod Forward
pub mod Backward
