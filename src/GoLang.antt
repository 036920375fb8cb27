-- ===== src/GoLang.antt =====
-- What the modelled files use of the Go language and its standard library.
pub mod Text
pub mod Float
pub mod Value
pub mod Strconv
pub mod Int64
pub mod Exact
pub mod Sort
pub mod Byte
pub mod Map
