-- ===== src/Text.antt =====
-- JavaScript strings and Node's UTF-8 and decimal conversions of them. A string is the list of its
-- code points; `Buffer.toString('utf8')` never makes a lone surrogate, and `Buffer.from` writes
-- U+FFFD for one.
pub mod Utf8
pub mod Decimal
pub mod Json
pub mod Names
pub mod Words
pub mod Patterns
