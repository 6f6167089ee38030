-- ===== src/Evidence/Merkle.antt =====
-- The Merkle root of app/evidence.py: the loop ends, and what the root commits to.
use text.Mathlib.TextLemmas.{append_inj}
use gpt_project_bridge.Base.{
  ◌≢◌, ℕ, zero, suc, ◌+◌, ◌%◌, ◌≤◌, String, ◌<>◌, count, ◌≡◌, refl, sym, ap, ◌∙◌, ◌⊎◌, inl, inr,
  Option, none, some, List, [], ◌∷◌, arith, length, All-append, Bool-cases, str_eq, eq_iff,
  some_inj,
}
use gpt_project_bridge.Host.{Host, HasDigestLength}
use gpt_project_bridge.Evidence.{pad, pair_up, merkle_loop, merkle_root}
use gpt_project_bridge.Evidence.Levels.{
  pad-two, cons_inj, last?-All, pad-cases, length-pad-even, length-pad-eq, pad_inj, AreDigests,
}

module _ (H : Host) where
  -- the level above one of even length
  unfoldable pub pairs : List String → List String
  pairs [] = []
  pairs (a ∷ []) = []
  pairs (a ∷ b ∷ rest) = H.sha256 (a <> b) ∷ pairs rest

  pair_up-pairs :
      (level : List String) → length level % 2 ≡ 0 → pair_up H level ≡ some (pairs level)
  unfolding pair_up pairs
  pair_up-pairs [] even = refl
  pair_up-pairs (a ∷ []) even = absurd (omega arith)
  pair_up-pairs (a ∷ b ∷ rest) even = rw (pair_up-pairs rest (omega arith)) refl

  length-pairs : (level : List String) → length (pairs level) + length (pairs level) ≤ length level
  unfolding pairs
  length-pairs [] = omega arith
  length-pairs (a ∷ []) = omega arith
  length-pairs (a ∷ b ∷ rest) = omega (arith, length-pairs rest)

  length-pairs-eq :
      (xs ys : List String) → length xs ≡ length ys → length (pairs xs) ≡ length (pairs ys)
  unfolding pairs
  length-pairs-eq [] [] n = refl
  length-pairs-eq (a ∷ []) (b ∷ []) n = refl
  length-pairs-eq (a ∷ b ∷ xs) (c ∷ d ∷ ys) n = omega (arith, length-pairs-eq xs ys (omega arith))
  length-pairs-eq [] (_ ∷ _) n = absurd (omega arith)
  length-pairs-eq (_ ∷ _) [] n = absurd (omega arith)
  length-pairs-eq (_ ∷ []) (_ ∷ _ ∷ _) n = absurd (omega arith)
  length-pairs-eq (_ ∷ _ ∷ _) (_ ∷ []) n = absurd (omega arith)

  abbrev HasRoot : ℕ → List String → Type 0
  HasRoot fuel level = (root : String) × (merkle_loop H fuel level ≡ some root)

  abbrev next_level : ℕ → Option (List String) → Option String
  next_level fuel none = none
  next_level fuel (some level) = merkle_loop H fuel level

  merkle_loop-step :
      (fuel : ℕ)
      → (a b : String) → (rest more : List String) → pad (a ∷ b ∷ rest) ≡ a ∷ b ∷ more
      → merkle_loop H (suc fuel) (a ∷ b ∷ rest)
        ≡ merkle_loop H fuel (H.sha256 (a <> b) ∷ pairs more)
  unfolding merkle_loop pairs
  merkle_loop-step fuel a b rest more is_pad =
      ap (next_level fuel) (pair_up-pairs (pad (a ∷ b ∷ rest)) (length-pad-even (a ∷ b ∷ rest)))
      ∙ ap (λ level. merkle_loop H fuel (pairs level)) is_pad

  merkle_loop-HasRoot :
      (fuel : ℕ)
      → (a : String) → (rest : List String) → length rest ≤ fuel
      → HasRoot fuel (a ∷ rest)
  unfolding merkle_loop
  merkle_loop-HasRoot fuel a [] h = (a, refl)
  merkle_loop-HasRoot zero a (b ∷ rest) h = absurd (omega arith)
  merkle_loop-HasRoot (suc fuel) a (b ∷ rest) h =
      let (more, is_pad, short) = pad-two a b rest in
      let (root, found) =
        merkle_loop-HasRoot fuel (H.sha256 (a <> b)) (pairs more)
          (omega (arith, length-pairs more)) in
      (root, merkle_loop-step fuel a b rest more is_pad ∙ found)

  -- two texts that differ, with one digest
  abbrev TextClash : String → String → Type 0
  TextClash s t = (s ≢ t) × (H.sha256 s ≡ H.sha256 t)

  -- at one place of two levels, pairs that differ with one digest
  unfoldable PairClash : List String → List String → Type 0
  PairClash (a ∷ b ∷ xs) (c ∷ d ∷ ys) = TextClash (a <> b) (c <> d) ⊎ PairClash xs ys
  PairClash _ _ = ⊥

  -- the same at one place of two trees, this many levels up
  unfoldable pub TreeClash : ℕ → List String → List String → Type 0
  unfolding PairClash
  TreeClash (suc n) (a ∷ b ∷ xs) (c ∷ d ∷ ys) =
      PairClash (pad (a ∷ b ∷ xs)) (pad (c ∷ d ∷ ys))
      ⊎ TreeClash n (pairs (pad (a ∷ b ∷ xs))) (pairs (pad (c ∷ d ∷ ys)))
  TreeClash _ _ _ = ⊥

  split_text : (s t : String) → H.sha256 s ≡ H.sha256 t → (s ≡ t) ⊎ TextClash s t
  split_text s t e = elim (Bool-cases (str_eq s t)) [
    | inl same ↦ inl ((eq_iff s t).0 same)
    | inr differ ↦ inr ((λ same. cc (differ, (eq_iff s t).1 same)), e)
  ]

  pairs-inj :
      (xs ys : List String)
      → length xs ≡ length ys
      → length xs % 2 ≡ 0
      → AreDigests xs
      → AreDigests ys
      → pairs xs ≡ pairs ys
      → (xs ≡ ys) ⊎ PairClash xs ys
  unfolding pairs PairClash
  pairs-inj [] [] n even ds es p = inl refl
  pairs-inj (a ∷ []) (b ∷ []) n even ds es p = absurd (omega arith)
  pairs-inj (a ∷ b ∷ xs) (c ∷ d ∷ ys) n even (da, (db, ds)) (dc, (dd, es)) p =
      elim (split_text (a <> b) (c <> d) (cons_inj p).0) [
        | inr clash ↦ inr (inl clash)
        | inl same ↦ elim (pairs-inj xs ys (omega arith) (omega arith) ds es (cons_inj p).1) [
          | inr clash ↦ inr (inr clash)
          | inl rest ↦ let ends = append_inj same (da ∙ sym dc) in inl (rw (ends.0, ends.1, rest))
        ]
      ]
  pairs-inj [] (_ ∷ _) n even ds es p = absurd (omega arith)
  pairs-inj (_ ∷ _) [] n even ds es p = absurd (omega arith)
  pairs-inj (_ ∷ []) (_ ∷ _ ∷ _) n even ds es p = absurd (omega arith)
  pairs-inj (_ ∷ _ ∷ _) (_ ∷ []) n even ds es p = absurd (omega arith)

  pad-AreDigests : (xs : List String) → AreDigests xs → AreDigests (pad xs)
  pad-AreDigests xs ds = elim (pad-cases xs) [
    | inl (even, same) ↦ rw same ds
    | inr (odd, (l, is_last, same)) ↦ rw same (
        All-append (λ s. count s ≡ 64) xs (l ∷ []) ds
          (last?-All (λ s. count s ≡ 64) xs l ds is_last, tt))
  ]

  -- `merkle_root` returns a root for every list of leaves: its loop ends, no level that it pairs up has an
  -- odd length, and the fuel of the model is enough.
  pub merkle_root-HasRoot :
      (leaves : List String) → (root : String) × (merkle_root H leaves ≡ some root)
  unfolding merkle_root
  merkle_root-HasRoot [] = (H.sha256 "", refl)
  merkle_root-HasRoot (a ∷ rest) = merkle_loop-HasRoot (length (a ∷ rest)) a rest (omega arith)

module _ (H : Host) (long : HasDigestLength H) where
  pairs-AreDigests : (xs : List String) → AreDigests (pairs H xs)
  unfolding pairs
  pairs-AreDigests [] = tt
  pairs-AreDigests (a ∷ []) = tt
  pairs-AreDigests (a ∷ b ∷ xs) = (long (a <> b), pairs-AreDigests xs)

  loop-commits :
      (fuel : ℕ) (a b : String) (xs ys : List String)
      → length xs ≡ length ys
      → length xs ≤ fuel
      → AreDigests (a ∷ xs)
      → AreDigests (b ∷ ys)
      → merkle_loop H fuel (a ∷ xs) ≡ merkle_loop H fuel (b ∷ ys)
      → (a ∷ xs ≡ b ∷ ys) ⊎ TreeClash H fuel (a ∷ xs) (b ∷ ys)
  unfolding merkle_loop pairs TreeClash
  loop-commits fuel a b [] [] n f ds es p = inl (ap (λ s. s ∷ []) (some_inj p))
  loop-commits zero a b (c ∷ xs) (d ∷ ys) n f ds es p = absurd (omega arith)
  loop-commits (suc fuel) a b (c ∷ xs) (d ∷ ys) n f ds es p =
      let level = a ∷ c ∷ xs in
      let other = b ∷ d ∷ ys in
      let (more, is_pad, short) = pad-two a c xs in
      let (more2, is_pad2, short2) = pad-two b d ys in
      elim (loop-commits fuel (H.sha256 (a <> c)) (H.sha256 (b <> d)) (pairs H more) (pairs H more2)
        (length-pairs-eq H more more2 (
          omega (
            arith,
            sym (ap length is_pad) ∙ length-pad-eq level other (ap suc n) ∙ ap length is_pad2,
          )))
        (omega (arith, length-pairs H more)) (long (a <> c), pairs-AreDigests more)
        (long (b <> d), pairs-AreDigests more2)
        (sym (merkle_loop-step H fuel a c xs more is_pad)
          ∙ p
          ∙ merkle_loop-step H fuel b d ys more2 is_pad2)) [
            | inr clash ↦ inr (inr (rw (is_pad, is_pad2) clash))
            | inl next ↦
                elim (pairs-inj H (pad level) (pad other) (length-pad-eq level other (ap suc n))
                  (length-pad-even level) (pad-AreDigests H level ds) (pad-AreDigests H other es)
                  (rw (is_pad, is_pad2) next)) [
                    | inr clash ↦ inr (inl clash)
                    | inl same ↦ inl (pad_inj level other (ap suc n) same)
                  ]
          ]
  loop-commits fuel a b [] (_ ∷ _) n f ds es p = absurd (omega arith)
  loop-commits fuel a b (_ ∷ _) [] n f ds es p = absurd (omega arith)

  -- Given digests of 64 characters: two lists of equally many digests with one Merkle root are the same
  -- list, or else there is a place, the same in both trees, where the two texts hashed differ and have
  -- one digest.
  pub merkle_root-commits :
      (xs ys : List String)
      → length xs ≡ length ys
      → AreDigests xs
      → AreDigests ys
      → merkle_root H xs ≡ merkle_root H ys
      → (xs ≡ ys) ⊎ TreeClash H (length xs) xs ys
  unfolding merkle_root
  merkle_root-commits [] [] n ds es p = inl refl
  merkle_root-commits (x ∷ xs) (y ∷ ys) n ds es p =
      loop-commits (length (x ∷ xs)) x y xs ys (omega arith) (omega arith) ds es
        (p ∙ ap (λ k. merkle_loop H k (y ∷ ys)) (sym n))
  merkle_root-commits [] (y ∷ ys) n ds es p = absurd (omega arith)
  merkle_root-commits (x ∷ xs) [] n ds es p = absurd (omega arith)
