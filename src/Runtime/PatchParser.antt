-- ===== src/Runtime/PatchParser.antt =====
-- src/runtime/patch-parser.ts: the grammar of a patch, and the text that it makes of a file.
pub mod Grammar
pub mod Syntax
pub mod RoundTrip
pub mod Lines
pub mod Seek
pub mod Update
mod Checks
