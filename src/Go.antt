-- ===== src/Go.antt =====
-- The parts of Go's language and standard library that the modelled code uses.
pub mod Strings
pub mod Strconv
pub mod Maps
pub mod Time
pub mod Binary
pub mod Hex
pub mod Base64
pub mod HttpHeader
