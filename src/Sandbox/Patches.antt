-- ===== src/Sandbox/Patches.antt =====
-- backend/app/sandbox/patches.py: the repair of the line counts of a generated patch. The index into
-- the lines is the list of the lines from there on. Parameters: `split` for
-- str.splitlines(keepends=True), `is_digit` and `int` for the digits of the expression and their
-- value, and `text` for the str of a number.
pub mod Header
pub mod Normalize
pub mod Lines
pub mod Termination
pub mod Content
mod Examples
