-- ===== src/Text.antt =====
-- Go's `strings` package as far as the program uses it. A string is the list of its runes.
-- `strings.ToLower` is exact where it yields ASCII; other runes beyond ASCII are left as they are,
-- since the program compares the results with ASCII words only.
mod Equality
mod Spaces
mod Splitting
mod Search
mod Numbers
mod Sorting
unfoldable pub use Equality.*
unfoldable pub use Spaces.*
unfoldable pub use Splitting.*
unfoldable pub use Search.*
unfoldable pub use Numbers.*
unfoldable pub use Sorting.*
