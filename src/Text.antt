-- ===== src/Text.antt =====
-- Go strings and the functions of package strings that the engine calls. A string is the list of
-- its code points: the engine compares, splits and scans text and never indexes into a rune, and
-- every text that a JSON decoder hands over is valid UTF-8. `byte_len` is `len` of such a string.
mod Defs
mod Laws
mod Trim
mod Lines
mod Split
mod Decimal
mod FilePath
mod Elements
mod Ancestors
mod Redact
mod Matches
mod Masked
mod Tests
unfoldable pub use Defs.*
unfoldable pub use Lines.*
pub use Trim.*
unfoldable pub use Split.{join_with}
pub use Split.{split_plain, split_at_first, join_with-split}
unfoldable pub use Decimal.*
unfoldable pub use FilePath.*
unfoldable pub use Elements.{at}
pub use Elements.{IsElement, elements, clean-at, elements-IsElement}
unfoldable pub use Ancestors.*
unfoldable pub use Redact.*
unfoldable pub use Masked.*
pub use Laws.*
