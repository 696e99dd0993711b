-- ===== src/Net.antt =====
-- What the program uses of Go's `net` package: addresses as lists of bytes, their text, and networks.
pub mod Parse
pub mod Print
pub mod Network
pub mod Url
pub mod Tls
pub mod Query
mod Tests
