-- ===== src/Text.antt =====
-- What the code uses of Go's packages strings and strconv, over texts as lists of bytes. Texts are
-- ASCII, so TrimSpace trims the six ASCII space characters. An `int` has 64 bits.
mod Split
mod Trim
mod Number
unfoldable pub use Split.*
unfoldable pub use Trim.*
unfoldable pub use Number.*
