-- ===== src/Json.antt =====
-- JSON values as `json.loads` gives them (its numbers are integers here), the `dict` operations and
-- Python's `==` on them. Json/Dump.antt has the text that the program hashes.
pub mod Data
pub mod Dump
unfoldable pub use Data.*
