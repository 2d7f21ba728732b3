-- ===== src/Style.antt =====
-- Checks of cpplint.py that look at the style of a line.
pub mod AltTokens
pub mod Braces
pub mod Calls
pub mod Comments
pub mod Constructs
pub mod EmptyBody
pub mod Explicit
pub mod Line
pub mod Macros
pub mod Operators
pub mod Parentheses
pub mod Sections
pub mod Semicolons
pub mod Spacing
pub mod Types
pub mod Width
