-- ===== src/Prelude/Text.antt =====
-- `str` and `String` of the standard library: a text is the list of its UTF-8 bytes.
mod Literal
mod Case
mod Trim
mod Cut
mod Decimal
mod Hex
mod Laws
mod Slices
unfoldable pub use Literal.*
unfoldable pub use Case.*
unfoldable pub use Trim.*
unfoldable pub use Cut.*
unfoldable pub use Decimal.*
unfoldable pub use Hex.*
unfoldable pub use Laws.*
unfoldable pub use Slices.*
