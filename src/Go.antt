-- ===== src/Go.antt =====
-- What the program uses of Go's language and standard library.
pub mod Ints
pub mod Strconv
pub mod Strings
pub mod Spaces
