-- ===== src/Base/Text.antt =====
-- Python's operations on texts that the program uses. Case and white space are those of ASCII.
use Prim.Native.Nat.{Ordering, ℕ, zero, suc, ◌-◌, ◌/◌, ◌%◌}
pub mod Strip
pub mod Ascii
use Prim.Native.Char.{Char, code}
use Prim.Native.String.{String, [], ◌∷◌, ◌++◌, count, char_at, compare}
use mathlib.Core.List.{List}
use mathlib.Core.Bool.{Bool, true, false, ◌&&◌, ◌||◌, not}
use package.gpt_project_bridge.Base.Tests.{ltb, leb, nat_eq, if◌then◌else◌}

unfoldable pub is_space : Char → Bool
is_space c =
    nat_eq (code c) 32
    || (leb 9 (code c) && leb (code c) 13)
    || (leb 28 (code c) && leb (code c) 31)

-- `bool(s.strip())`
unfoldable pub has_text : String → Bool
unfolding is_space
has_text [] = false
has_text (c ∷ s) = not (is_space c) || has_text s

strip_left : String → String
unfolding is_space
strip_left [] = []
strip_left (c ∷ s) = let rest = strip_left s in if is_space c then rest else c ∷ s

strip_right : String → String
unfolding has_text
strip_right [] = []
strip_right (c ∷ s) = let rest = strip_right s in if has_text (c ∷ s) then c ∷ rest else []

-- `s.strip()`
unfoldable pub strip : String → String
unfolding strip_left strip_right
strip s = strip_right (strip_left s)

-- `[0-9a-f]`
unfoldable pub is_hex : Char → Bool
is_hex c = (leb 48 (code c) && leb (code c) 57) || (leb 97 (code c) && leb (code c) 102)

unfoldable pub all_hex : String → Bool
unfolding is_hex
all_hex [] = true
all_hex (c ∷ s) = is_hex c && all_hex s

-- `re.compile(r"^[0-9a-f]{64}$").fullmatch(s) is not None`
unfoldable pub is_sha256_hex : String → Bool
unfolding all_hex
is_sha256_hex s = nat_eq (count s) 64 && all_hex s

lower_char : Char → Char
lower_char c =
    if leb 65 (code c) && leb (code c) 90
    then char_at "abcdefghijklmnopqrstuvwxyz" (code c - 65)
    else c

-- `s.lower()`
unfoldable pub lower : String → String
unfolding lower_char
lower [] = []
lower (c ∷ s) = lower_char c ∷ lower s

-- `s[:n]`
unfoldable pub take_text : ℕ → String → String
take_text zero s = []
take_text (suc n) [] = []
take_text (suc n) (c ∷ s) = c ∷ take_text n s

digits : ℕ → ℕ → String
digits zero n = []
digits (suc f) n =
    let rest = digits f (n / 10) in
    let last = char_at "0123456789" (n % 10) ∷ [] in if ltb n 10 then last else rest ++ last

-- `str(n)`: a number has fewer digits than its successor's value
unfoldable pub decimal : ℕ → String
unfolding digits
decimal n = digits (suc n) n

-- `sep.join(texts)`
unfoldable pub join_with : String → List String → String
join_with sep List.[] = ""
join_with sep (List.◌∷◌ s List.[]) = s
join_with sep (List.◌∷◌ s (List.◌∷◌ t r)) = s ++ sep ++ join_with sep (List.◌∷◌ t r)

insert_text : String → List String → List String
insert_text s List.[] = List.◌∷◌ s List.[]
insert_text s (List.◌∷◌ t r) =
    let rest = insert_text s r in
    elim (compare s t) [ Ordering.gt ↦ List.◌∷◌ t rest | _ ↦ List.◌∷◌ s (List.◌∷◌ t r) ]

-- `sorted(texts)`
unfoldable pub sort_texts : List String → List String
unfolding insert_text
sort_texts List.[] = List.[]
sort_texts (List.◌∷◌ s r) = insert_text s (sort_texts r)
