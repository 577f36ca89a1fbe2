-- ===== src/Text.antt =====
-- C strings, and what the code uses of the C library's `sprintf`, `sscanf`, `memcpy`.
pub mod Chars
pub mod Outcome
pub mod Decimal
pub mod Format
pub mod Scan
pub mod RoundTrip
pub mod Buffer
pub mod Splice
