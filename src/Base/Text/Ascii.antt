-- ===== src/Base/Text/Ascii.antt =====
-- Texts of ASCII characters, and the text that `json.dumps` writes with `ensure_ascii=True`.
use Prim.Native.Nat.{ℕ, ◌+◌, ◌-◌, ◌/◌, ◌%◌}
use Prim.Native.Char.{code}
use Prim.Native.String.{String, [], ◌∷◌, ◌++◌, char_at}
use mathlib.Core.Bool.{Bool, true, ◌&&◌}
use package.gpt_project_bridge.Base.Tests.{ltb, leb, if◌then◌else◌}

-- `s.isascii()`
unfoldable pub is_ascii : String → Bool
is_ascii [] = true
is_ascii (c ∷ s) = leb (code c) 127 && is_ascii s

hex4 : ℕ → String
hex4 n =
    let digit = λ (d : ℕ). char_at "0123456789abcdef" (d % 16) in
    digit (n / 4096) ∷ digit (n / 256) ∷ digit (n / 16) ∷ digit n ∷ []

-- beyond the basic plane, a surrogate pair
unicode_escape : ℕ → String
unfolding hex4
unicode_escape n =
    if ltb n 65536
    then "\\u" ++ hex4 n
    else "\\u" ++ hex4 (55296 + (n - 65536) / 1024) ++ "\\u" ++ hex4 (56320 + (n - 65536) % 1024)

-- A text of JSON has such characters only inside its strings.
unfoldable pub ensure_ascii : String → String
unfolding unicode_escape
ensure_ascii [] = []
ensure_ascii (c ∷ s) =
    (if leb (code c) 126 then c ∷ [] else unicode_escape (code c)) ++ ensure_ascii s
