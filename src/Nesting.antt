-- ===== src/Nesting.antt =====
-- `NestingState` of cpplint.py and the blocks on its stack.
pub mod Blocks
pub mod Braces
pub mod Declarations
pub mod Preprocessor
pub mod Template
pub mod Update
