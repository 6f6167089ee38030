-- ===== src/Physiology/Recovery/Pages.antt =====
-- The pages of `_all_events` in app/physiology_recovery.py are the events of the topic.
use gpt_project_bridge.Base.{
  ℕ, zero, suc, ◌+◌, ◌≤◌, ◌<◌, String, ◌≡◌, refl, sym, ap, ◌∙◌, Bool, true, false, ◌&&◌, Option,
  none, some, List, [], ◌∷◌, ◌++◌, Result, ok, Action, ◌>>=◌, pure, arith, length, last?, select,
  ltb, Bool-cases, Option-cases, subst, inl, inr,
}
use gpt_project_bridge.Physiology.Journal.{JournalEvent, Journal, take, on_topic, read}
use gpt_project_bridge.Physiology.Journal.Growth.{IsNumbered, IsJournal}
use gpt_project_bridge.Physiology.Recovery.{seq_of_last, then_rest, all_events}

-- numbers that only grow, from above `k`
abbrev IsAscending : ℕ → List JournalEvent → Type 0
IsAscending k [] = Unit
IsAscending k (e ∷ es) = (k < e.seq) × IsAscending e.seq es

IsNumbered-IsAscending : (k : ℕ) (es : List JournalEvent) → IsNumbered k es → IsAscending k es
IsNumbered-IsAscending k [] n = tt
IsNumbered-IsAscending k (e ∷ es) n =
    (omega (arith, n.0), rw n.0 (IsNumbered-IsAscending (k + 1) es n.1))

IsAscending-weaken :
    (j k : ℕ) (es : List JournalEvent) → j ≤ k → IsAscending k es → IsAscending j es
IsAscending-weaken j k [] le a = tt
IsAscending-weaken j k (e ∷ es) le a = (omega (arith, a.0), a.1)

IsAscending-select :
    (p : JournalEvent → Bool) (k : ℕ) (es : List JournalEvent)
    → IsAscending k es
    → IsAscending k (select p es)
IsAscending-select p k [] a = tt
IsAscending-select p k (e ∷ es) a = elim (Bool-cases (p e)) [
  | inl x ↦ rw x (a.0, IsAscending-select p e.seq es a.1)
  | inr x ↦ rw x (
      IsAscending-weaken k e.seq (select p es) (omega (arith, a.0))
        (IsAscending-select p e.seq es a.1))
]

abbrev beyond : ℕ → JournalEvent → Bool
beyond k e = ltb k e.seq

select-all :
    (j k : ℕ) (es : List JournalEvent) → j ≤ k → IsAscending k es → select (beyond j) es ≡ es
select-all j k [] le a = refl
select-all j k (e ∷ es) le a =
    let rest = select-all j e.seq es (omega (arith, a.0)) a.1 in
    let yes : beyond j e ≡ true = ground (arith, a.0) in rw (yes, rest) refl

-- a later start of the reading selects from what an earlier one selected
select-select :
    (p : JournalEvent → Bool) (j k : ℕ) (es : List JournalEvent)
    → j ≤ k
    → select (beyond k) (select (λ e. beyond j e && p e) es) ≡ select (λ e. beyond k e && p e) es
select-select p j k [] le = refl
select-select p j k (e ∷ es) le = ground (arith, select-select p j k es le)

drop : ℕ → List JournalEvent → List JournalEvent
drop zero es = es
drop (suc n) [] = []
drop (suc n) (e ∷ es) = drop n es

take-drop : (n : ℕ) (es : List JournalEvent) → take n es ++ drop n es ≡ es
unfolding take drop
take-drop zero es = refl
take-drop (suc n) [] = refl
take-drop (suc n) (e ∷ es) = rw (take-drop n es) refl

last-skip :
    (e f : JournalEvent) (es : List JournalEvent)
    → seq_of_last (last? (e ∷ f ∷ es)) ≡ seq_of_last (last? (f ∷ es))
last-skip e f es = elim (Option-cases (last? es)) [ inl x ↦ rw x refl | inr x ↦ rw x.1 refl ]

select-skip :
    (p : JournalEvent → Bool) (e : JournalEvent) (es : List JournalEvent)
    → p e ≡ false
    → select p (e ∷ es) ≡ select p es
select-skip p e es h = rw h refl

-- what lies behind the last event of a page is the rest
page-last :
    (n k : ℕ) (e : JournalEvent) (es : List JournalEvent)
    → IsAscending k (e ∷ es)
    → let last = seq_of_last (last? (take (suc n) (e ∷ es))) in
      (k < last) × (select (beyond last) (e ∷ es) ≡ drop (suc n) (e ∷ es))
unfolding take drop seq_of_last
page-last zero k e es a = (
  a.0,
  select-skip (beyond e.seq) e es (ground arith) ∙ select-all e.seq e.seq es (ground arith) a.1,
)
page-last (suc n) k e [] a = (a.0, select-skip (beyond e.seq) e [] (ground arith))
page-last (suc n) k e (f ∷ es) a =
    let (lt, eq) = page-last n e.seq f es a.1 in
    let last : ℕ = seq_of_last (last? (take (suc n) (f ∷ es))) in
    subst (λ m. (k < m) × (select (beyond m) (e ∷ f ∷ es) ≡ drop (suc n) (f ∷ es)))
      (sym (last-skip e f (take n es)))
      (omega (arith, lt, a.0), select-skip (beyond last) e (f ∷ es) (ground (arith, lt)) ∙ eq)

drop-length :
    (n : ℕ) (e : JournalEvent) (es : List JournalEvent) → length (drop (suc n) (e ∷ es)) ≤ length es
unfolding drop
drop-length zero e es = omega arith
drop-length (suc n) e [] = omega arith
drop-length (suc n) e (f ∷ es) = omega (arith, drop-length n f es)

IsAscending-beyond :
    (p : JournalEvent → Bool) (after k : ℕ) (es : List JournalEvent)
    → IsAscending k es
    → IsAscending after (select (λ e. beyond after e && p e) es)
IsAscending-beyond p after k [] a = tt
IsAscending-beyond p after k (e ∷ es) a = elim (Bool-cases (beyond after e && p e)) [
  | inl x ↦ rw x (ground arith, IsAscending-select (λ e. beyond after e && p e) e.seq es a.1)
  | inr x ↦ rw x (IsAscending-beyond p after e.seq es a.1)
]

then_rest_lem :
    (e : JournalEvent) (xs more : List JournalEvent)
    (rest : Action Journal (Option (List JournalEvent))) (j : Journal)
    → rest j ≡ (ok (some more), j)
    → then_rest (e ∷ xs) rest j ≡ (ok (some ((e ∷ xs) ++ more)), j)
unfolding then_rest
then_rest_lem e xs more rest j h =
    ap
      (λ (r : Result (Option (List JournalEvent)) × Journal).
        ◌>>=◌ {S = Journal} {A = Option (List JournalEvent)} {B = Option (List JournalEvent)}
          (λ s. r) (λ found. pure (elim found [ none ↦ none | some es ↦ some ((e ∷ xs) ++ es) ])) j)
      h

length-select :
    (p : JournalEvent → Bool) (es : List JournalEvent) → length (select p es) ≤ length es
length-select p [] = omega arith
length-select p (e ∷ es) = ground (arith, length-select p es)

select-beyond :
    (p : JournalEvent → Bool) (k : ℕ) (es : List JournalEvent)
    → IsAscending k es
    → select (λ e. beyond 0 e && p e) es ≡ select p es
select-beyond p k [] a = refl
select-beyond p k (e ∷ es) a = ground (arith, a.0, select-beyond p e.seq es a.1)

module _ (topic : String) (j : Journal) where
  -- the events of the topic above a number
  abbrev above : ℕ → List JournalEvent
  above after = select (λ e. beyond after e && on_topic (some topic) e) j.events

  read_lem : (after : ℕ) → read after 10000 (some topic) j ≡ (ok (take 10000 (above after)), j)
  unfolding read
  read_lem after = refl

  above-later :
      (after : ℕ) (e : JournalEvent) (es : List JournalEvent)
      → IsAscending 0 j.events
      → above after ≡ e ∷ es
      → above (seq_of_last (last? (take 10000 (e ∷ es)))) ≡ drop 10000 (e ∷ es)
  above-later after e es a x =
      let m : ℕ = seq_of_last (last? (take 10000 (e ∷ es))) in
      let up =
        subst (IsAscending after) x
          (IsAscending-beyond (on_topic (some topic)) after 0 j.events a) in
      let (lt, rest) = page-last 9999 after e es up in
      sym (select-select (on_topic (some topic)) after m j.events (omega (arith, lt)))
      ∙ ap (select (beyond m)) x
      ∙ rest

  -- one round of the loop
  step : ℕ → List JournalEvent → Result (Option (List JournalEvent)) × Journal
  step fuel xs =
      then_rest (take 10000 xs) (all_events fuel (seq_of_last (last? (take 10000 xs))) topic) j

  all_events-above :
      (fuel after : ℕ)
      → IsAscending 0 j.events
      → length (above after) < fuel
      → all_events fuel after topic j ≡ (ok (some (above after)), j)
  unfolding all_events then_rest step take
  all_events-above zero after a lt = absurd (omega (arith, lt))
  all_events-above (suc fuel) after a lt =
      go (above after) refl (λ m less. all_events-above fuel m a less)
    where
      go :
          (xs : List JournalEvent)
          → above after ≡ xs
          → ((m : ℕ)
              → length (above m) < fuel
              → all_events fuel m topic j ≡ (ok (some (above m)), j))
          → all_events (suc fuel) after topic j ≡ (ok (some (above after)), j)
      go [] x next = ap (step fuel) x ∙ rw x refl
      go (e ∷ es) x next =
          let m : ℕ = seq_of_last (last? (take 10000 (e ∷ es))) in
          let later : above m ≡ drop 10000 (e ∷ es) = above-later after e es a x in
          let small = rw x at lt in
          let less : length (above m) < fuel =
            rw later (omega (arith, drop-length 9999 e es, small)) in
          ap (step fuel) x
          ∙ then_rest_lem e (take 9999 es) (above m) (all_events fuel m topic) j (next m less)
          ∙ ap (λ l. (ok (some l), j))
              (ap (λ l. take 10000 (e ∷ es) ++ l) later ∙ take-drop 10000 (e ∷ es) ∙ sym x)

  -- Of a journal in order, the pages of a topic together are all of its events in their order, and
  -- reading them changes nothing; the loop ends within one round more than there are events.
  pub all_events_lem :
      IsJournal j
      → all_events (suc (length j.events)) 0 topic j
        ≡ (ok (some (select (on_topic (some topic)) j.events)), j)
  all_events_lem w =
      let up = IsNumbered-IsAscending 0 j.events w.numbered in
      all_events-above (suc (length j.events)) 0 up
        (omega (arith, length-select (λ e. beyond 0 e && on_topic (some topic) e) j.events))
      ∙ ap (λ l. (ok (some l), j)) (select-beyond (on_topic (some topic)) 0 j.events up)
