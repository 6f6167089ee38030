-- ===== src/Evidence/Levels.antt =====
-- One level of the Merkle tree of app/evidence.py: padding to an even length.
use gpt_project_bridge.Base.{
  ◌+◌, ◌%◌, ◌≤◌, String, count, ◌≡◌, refl, sym, ◌∙◌, ◌⊎◌, inl, inr, Option, none, some, List, [],
  ◌∷◌, ◌++◌, arith, length, length-append, last?, All, subst, Bool-cases, nat_eq, some_inj,
}
use gpt_project_bridge.Evidence.{pad, last_list}

pub length-last_list : (x : Option String) → length (last_list x) ≤ 1
length-last_list none = omega arith
length-last_list (some s) = omega arith

pub length-pad : (level : List String) → length (pad level) ≤ length level + 1
unfolding pad
length-pad level = elim (Bool-cases (nat_eq (length level % 2) 0)) [
  | inl h ↦ rw h (omega arith)
  | inr h ↦
      rw (h, length-append level (last_list (last? level)))
        (omega (arith, length-last_list (last? level)))
]

-- the first two entries stay where they are
pub pad-two :
    (a b : String)
    → (rest : List String)
    → (more : List String) × (pad (a ∷ b ∷ rest) ≡ a ∷ b ∷ more) × (length more ≤ length rest + 1)
unfolding pad
pad-two a b rest = elim (Bool-cases (nat_eq (length (a ∷ b ∷ rest) % 2) 0)) [
  | inl h ↦ (rest, rw h, omega arith)
  | inr h ↦ (
    rest ++ last_list (last? (a ∷ b ∷ rest)),
    rw h,
    rw (length-append rest (last_list (last? (a ∷ b ∷ rest))))
        (omega (arith, length-last_list (last? (a ∷ b ∷ rest)))),
  )
]

pub cons_inj : {a b : String} {xs ys : List String} → a ∷ xs ≡ b ∷ ys → (a ≡ b) × (xs ≡ ys)
cons_inj p = (cc p, cc p)

pub snoc_inj :
    (xs ys : List String) (a b : String)
    → length xs ≡ length ys
    → xs ++ a ∷ [] ≡ ys ++ b ∷ []
    → xs ≡ ys
snoc_inj [] [] a b n p = refl
snoc_inj (x ∷ xs) (y ∷ ys) a b n p =
    rw ((cons_inj p).0, snoc_inj xs ys a b (omega arith) (cons_inj p).1)
snoc_inj [] (y ∷ ys) a b n p = absurd (omega arith)
snoc_inj (x ∷ xs) [] a b n p = absurd (omega arith)

pub last?-some : (x : String) → (xs : List String) → (l : String) × (last? (x ∷ xs) ≡ some l)
last?-some x [] = (x, refl)
last?-some x (y ∷ ys) = let (l, e) = last?-some y ys in (l, rw e)

pub last?-All :
    (P : String → Type 0) → (xs : List String) → (l : String) → All P xs → last? xs ≡ some l → P l
last?-All P [] l h e = absurd (ground arith)
last?-All P (x ∷ []) l h e = subst P (some_inj e) h.0
last?-All P (x ∷ y ∷ xs) l h e =
    let (m, f) = last?-some y xs in last?-All P (y ∷ xs) l h.1 (f ∙ (rw f at e))

abbrev pub IsPadded : List String → Type 0
IsPadded xs =
    ((length xs % 2 ≡ 0) × (pad xs ≡ xs))
    ⊎ ((length xs % 2 ≡ 1) × ((l : String) × (last? xs ≡ some l) × (pad xs ≡ xs ++ l ∷ [])))

pub pad-cases : (xs : List String) → IsPadded xs
unfolding pad
pad-cases [] = inl (refl, refl)
pad-cases (x ∷ xs) = elim (Bool-cases (nat_eq (length (x ∷ xs) % 2) 0)) [
  | inl even ↦ inl (ground arith, rw even)
  | inr odd ↦
      let (l, is_last) = last?-some x xs in inr (ground arith, (l, is_last, rw (odd, is_last)))
]

pub length-pad-even : (xs : List String) → length (pad xs) % 2 ≡ 0
length-pad-even xs = elim (pad-cases xs) [
  | inl (even, same) ↦ rw same even
  | inr (odd, (l, is_last, same)) ↦ rw (same, length-append xs (l ∷ [])) (omega arith)
]

pub length-pad-eq :
    (xs ys : List String) → length xs ≡ length ys → length (pad xs) ≡ length (pad ys)
length-pad-eq xs ys n = elim (pad-cases xs) [
  | inl (even, same) ↦ elim (pad-cases ys) [
    | inl (even2, same2) ↦ rw (same, same2) n
    | inr (odd2, (l2, is_last2, same2)) ↦ absurd (omega arith)
  ]
  | inr (odd, (l, is_last, same)) ↦ elim (pad-cases ys) [
    | inl (even2, same2) ↦ absurd (omega arith)
    | inr (odd2, (l2, is_last2, same2)) ↦
        rw (same, same2, length-append xs (l ∷ []), length-append ys (l2 ∷ [])) (omega arith)
  ]
]

pub pad_inj : (xs ys : List String) → length xs ≡ length ys → pad xs ≡ pad ys → xs ≡ ys
pad_inj xs ys n p = elim (pad-cases xs) [
  | inl (even, same) ↦ elim (pad-cases ys) [
    | inl (even2, same2) ↦ sym same ∙ p ∙ same2
    | inr (odd2, (l2, is_last2, same2)) ↦ absurd (omega arith)
  ]
  | inr (odd, (l, is_last, same)) ↦ elim (pad-cases ys) [
    | inl (even2, same2) ↦ absurd (omega arith)
    | inr (odd2, (l2, is_last2, same2)) ↦ snoc_inj xs ys l l2 n (sym same ∙ p ∙ same2)
  ]
]

abbrev pub AreDigests : List String → Type 0
AreDigests = All (λ s. count s ≡ 64)
