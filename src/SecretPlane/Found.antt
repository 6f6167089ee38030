-- ===== src/SecretPlane/Found.antt =====
-- What the search of app/secret_plane.py for a secret in a result finds.
use package.text.Mathlib.TextLemmas.{nil-append, cons-append}
use gpt_project_bridge.Base.{
  String, ◌<>◌, ◌≡◌, refl, ◌⊎◌, inl, inr, Bool, true, false, ◌||◌, Option, none, some, [], ◌∷◌,
  ◌++◌, nat_eq_iff, eq_refl, arith,
}
use gpt_project_bridge.SecretPlane.Material.{
  Bytes, Value, text, bytes, mapping, sequence, other, Pairs, no_pairs, pair, Values, no_values,
  item, starts_text, text_has, starts_bytes, bytes_have, decoded_in, contains, pairs_contain,
  values_contain, contains_secret, is_empty_bytes,
}

-- The text stands somewhere in the other one; so do the bytes.
abbrev pub TextIn : Option String → String → Type 0
TextIn none s = ⊥
TextIn (some needle) s = (pre : String) × (post : String) × (s ≡ pre <> (needle <> post))

abbrev pub BytesIn : Bytes → Bytes → Type 0
BytesIn needle b = (pre : Bytes) × (post : Bytes) × (b ≡ pre ++ (needle ++ post))

-- The secret stands in a text, in bytes, or in a part of a mapping or of a sequence; `decode` reads it
-- as a text.
unfoldable mutual
  pub Occurs : (Bytes → Option String) → Bytes → Value → Type 0
  Occurs decode secret (text s) = TextIn (decode secret) s
  Occurs decode secret (bytes b) = BytesIn secret b
  Occurs decode secret (mapping ps) = OccursPairs decode secret ps
  Occurs decode secret (sequence vs) = OccursValues decode secret vs
  Occurs decode secret other = ⊥

  pub OccursPairs : (Bytes → Option String) → Bytes → Pairs → Type 0
  OccursPairs decode secret no_pairs = ⊥
  OccursPairs decode secret (pair k v ps) =
      (Occurs decode secret k ⊎ Occurs decode secret v) ⊎ OccursPairs decode secret ps

  pub OccursValues : (Bytes → Option String) → Bytes → Values → Type 0
  OccursValues decode secret no_values = ⊥
  OccursValues decode secret (item v vs) = Occurs decode secret v ⊎ OccursValues decode secret vs

starts_text-append : (needle post : String) → starts_text needle (needle <> post) ≡ true
unfolding starts_text
starts_text-append String.[] post = refl
starts_text-append (String.◌∷◌ c p) post =
    rw (cons-append c p post) (rw (starts_text-append p post, eq_refl (String.◌∷◌ c "")) refl)

text_has-starts_text : (needle s : String) → starts_text needle s ≡ true → text_has needle s ≡ true
unfolding text_has
text_has-starts_text needle String.[] h = h
text_has-starts_text needle (String.◌∷◌ c s) h = rw h refl

or_true : (a b : Bool) → b ≡ true → a || b ≡ true
or_true true b h = refl
or_true false b h = h

text_has-append : (pre needle post : String) → text_has needle (pre <> (needle <> post)) ≡ true
unfolding text_has
text_has-append String.[] needle post =
    rw (nil-append (needle <> post))
      (text_has-starts_text needle (needle <> post) (starts_text-append needle post))
text_has-append (String.◌∷◌ c pre) needle post = rw (cons-append c pre (needle <> post)) (
    or_true (starts_text needle (String.◌∷◌ c (pre <> (needle <> post)))) _
      (text_has-append pre needle post))

starts_bytes-append : (needle post : Bytes) → starts_bytes needle (needle ++ post) ≡ true
unfolding starts_bytes
starts_bytes-append [] post = refl
starts_bytes-append (c ∷ p) post = rw (starts_bytes-append p post, (nat_eq_iff c c).1 refl) refl

bytes_have-starts_bytes :
    (needle s : Bytes) → starts_bytes needle s ≡ true → bytes_have needle s ≡ true
unfolding bytes_have
bytes_have-starts_bytes needle [] h = h
bytes_have-starts_bytes needle (c ∷ s) h = rw h refl

bytes_have-append : (pre needle post : Bytes) → bytes_have needle (pre ++ (needle ++ post)) ≡ true
unfolding bytes_have
bytes_have-append [] needle post =
    bytes_have-starts_bytes needle (needle ++ post) (starts_bytes-append needle post)
bytes_have-append (c ∷ pre) needle post =
    or_true (starts_bytes needle (c ∷ (pre ++ (needle ++ post)))) _
      (bytes_have-append pre needle post)

decoded_in-TextIn : (o : Option String) (s : String) → TextIn o s → decoded_in o s ≡ true
unfolding decoded_in
decoded_in-TextIn none s h = absurd h
decoded_in-TextIn (some needle) s (pre, post, e) = rw e (text_has-append pre needle post)

or_left : (a b : Bool) → a ≡ true → a || b ≡ true
or_left a b h = rw h refl

module _ (decode : Bytes → Option String) (secret : Bytes) where
  mutual
    unfolding Occurs contains

    contains-Occurs : (v : Value) → Occurs decode secret v → contains decode secret v ≡ true
    contains-Occurs (text s) h = decoded_in-TextIn (decode secret) s h
    contains-Occurs (bytes b) (pre, post, e) = rw e (bytes_have-append pre secret post)
    contains-Occurs (mapping ps) h = contains-pairs ps h
    contains-Occurs (sequence vs) h = contains-values vs h
    contains-Occurs other h = absurd h

    contains-pairs :
        (ps : Pairs) → OccursPairs decode secret ps → pairs_contain decode secret ps ≡ true
    contains-pairs no_pairs h = absurd h
    contains-pairs (pair k v ps) (inl (inl h)) = rw (contains-Occurs k h) refl
    contains-pairs (pair k v ps) (inl (inr h)) =
        or_left (contains decode secret k || contains decode secret v) _
          (or_true (contains decode secret k) _ (contains-Occurs v h))
    contains-pairs (pair k v ps) (inr h) =
        or_true (contains decode secret k || contains decode secret v) _ (contains-pairs ps h)

    contains-values :
        (vs : Values) → OccursValues decode secret vs → values_contain decode secret vs ≡ true
    contains-values no_values h = absurd h
    contains-values (item v vs) (inl h) = rw (contains-Occurs v h) refl
    contains-values (item v vs) (inr h) =
        or_true (contains decode secret v) _ (contains-values vs h)

-- A secret that is not empty is found wherever it stands.
pub contains_secret-Occurs :
    (decode : Bytes → Option String) (secret : Bytes) (v : Value)
    → is_empty_bytes secret ≡ false
    → Occurs decode secret v
    → contains_secret decode secret v ≡ true
unfolding contains_secret
contains_secret-Occurs decode [] v full h = absurd (ground arith)
contains_secret-Occurs decode (b ∷ bs) v full h = contains-Occurs decode (b ∷ bs) v h
