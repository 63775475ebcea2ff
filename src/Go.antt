-- ===== src/Go.antt =====
-- What the program uses of Go's standard library, in the terms of its documentation.
pub mod Text
pub mod Map
pub mod Number
pub mod Netip
pub mod Sort
