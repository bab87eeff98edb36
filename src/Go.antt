-- ===== src/Go.antt =====
-- The parts of Go's standard library that the program calls, as the library documents them.
pub mod Strings
pub mod Strconv
pub mod Binary
pub mod Bufio
pub mod Files
pub mod Buffers
pub mod Flags
