-- ===== src/Physiology/Recovery/Groups.antt =====
-- The groups of events by cycle of `find_incomplete_cycles` in app/physiology_recovery.py.
use mathlib.Core.List.{append_assoc, append-nil}
use gpt_project_bridge.Base.{
  String, ◌≡◌, refl, sym, ap, ◌∙◌, subst, Bool, false, not, ◌&&◌, Option, none, some, List, [], ◌∷◌,
  ◌++◌, arith, any_of, select, Bool-cases, inl, inr, ◌==◌, eq_iff, eq_refl, opt_str_eq,
  if◌then◌else◌,
}
use gpt_project_bridge.Base.Dict.{lookup}
use gpt_project_bridge.Physiology.Journal.{JournalEvent}
use gpt_project_bridge.Physiology.Recovery.{add_to, put_event, group, is_open}

abbrev pub Groups : Type 0
Groups = List (String × List JournalEvent)

-- the events of one cycle in the groups
abbrev pub events_of : Option (List JournalEvent) → List JournalEvent
events_of none = []
events_of (some es) = es

-- no key stands twice
abbrev pub IsDistinct : Groups → Type 0
IsDistinct [] = Unit
IsDistinct ((k, es) ∷ gs) = (lookup k gs ≡ none) × IsDistinct gs

abbrev pub has_open : String → Groups → Bool
has_open id gs = any_of (λ g. g.0 == id && is_open g.1) gs

is_open-none : is_open [] ≡ false
unfolding is_open
is_open-none = refl

no_open : (id : String) (gs : Groups) → lookup id gs ≡ none → has_open id gs ≡ false
no_open id [] h = refl
no_open id ((k, es) ∷ gs) h = elim (Bool-cases (k == id)) [
  | inl x ↦ absurd (cc (rw x at h))
  | inr x ↦ rw x (no_open id gs (rw x at h))
]

pub open_of :
    (id : String) (gs : Groups)
    → IsDistinct gs
    → has_open id gs ≡ is_open (events_of (lookup id gs))
open_of id [] d = sym is_open-none
open_of id ((k, es) ∷ gs) d = elim (Bool-cases (k == id)) [
  | inl x ↦
      let same = (eq_iff k id).0 x in
      let rest = no_open id gs (subst (λ n. lookup n gs ≡ none) same d.0) in
      rw x (ground (arith, rest))
  | inr x ↦ rw x (open_of id gs d.1)
]

lookup-other :
    (id k : String) (e : JournalEvent) (gs : Groups)
    → (k == id) ≡ false
    → lookup id (add_to k e gs) ≡ lookup id gs
unfolding add_to
lookup-other id k e [] h = rw h refl
lookup-other id k e ((j, es) ∷ gs) h = elim (Bool-cases (j == k)) [
  | inl x ↦
      let other : (j == id) ≡ false = subst (λ n. (n == id) ≡ false) (sym ((eq_iff j k).0 x)) h in
      rw (x, other) refl
  | inr x ↦ rw (x, lookup-other id k e gs h) refl
]

lookup-same :
    (id : String) (e : JournalEvent) (gs : Groups)
    → events_of (lookup id (add_to id e gs)) ≡ events_of (lookup id gs) ++ e ∷ []
unfolding add_to
lookup-same id e [] = rw (eq_refl id) refl
lookup-same id e ((j, es) ∷ gs) = elim (Bool-cases (j == id)) [
  | inl x ↦ rw x (rw x refl)
  | inr x ↦ rw x (rw x (lookup-same id e gs))
]

flip : (a b : String) → (a == b) ≡ false → (b == a) ≡ false
flip a b h = elim (Bool-cases (b == a)) [
  | inl x ↦ absurd (cc (sym ((eq_iff a b).1 (sym ((eq_iff b a).0 x))) ∙ h))
  | inr x ↦ x
]

add_to-IsDistinct :
    (k : String) (e : JournalEvent) (gs : Groups) → IsDistinct gs → IsDistinct (add_to k e gs)
unfolding add_to
add_to-IsDistinct k e [] d = (refl, tt)
add_to-IsDistinct k e ((j, es) ∷ gs) d = elim (Bool-cases (j == k)) [
  | inl x ↦ rw x d
  | inr x ↦ rw x (lookup-other j k e gs (flip j k x) ∙ d.0, add_to-IsDistinct k e gs d.1)
]

put_event-IsDistinct :
    (e : JournalEvent) (c : Option String) (gs : Groups)
    → IsDistinct gs
    → IsDistinct (put_event e c gs)
unfolding put_event
put_event-IsDistinct e none gs d = d
put_event-IsDistinct e (some k) gs d = elim (Bool-cases (k == "")) [
  | inl x ↦ rw x d
  | inr x ↦ rw x (add_to-IsDistinct k e gs d)
]

pub group-IsDistinct :
    (es : List JournalEvent) (gs : Groups) → IsDistinct gs → IsDistinct (group es gs)
unfolding group
group-IsDistinct [] gs d = d
group-IsDistinct (e ∷ es) gs d =
    group-IsDistinct es (put_event e e.correlation_id gs)
      (put_event-IsDistinct e e.correlation_id gs d)

-- the event belongs to the cycle, whose name is not empty
abbrev belongs : String → Option String → Bool
belongs id c = opt_str_eq c (some id) && not (id == "")

abbrev pub in_cycle : String → JournalEvent → Bool
in_cycle id e = belongs id e.correlation_id

put_event-other :
    (id k : String) (e : JournalEvent) (gs : Groups)
    → (k == id) ≡ false
    → lookup id (put_event e (some k) gs) ≡ lookup id gs
unfolding put_event
put_event-other id k e gs h = elim (Bool-cases (k == "")) [
  | inl x ↦ rw x refl
  | inr x ↦ rw x (lookup-other id k e gs h)
]

put_event-same :
    (id : String) (e : JournalEvent) (gs : Groups)
    → events_of (lookup id (put_event e (some id) gs))
      ≡ (if not (id == "") then events_of (lookup id gs) ++ e ∷ [] else events_of (lookup id gs))
unfolding put_event
put_event-same id e gs = elim (Bool-cases (id == "")) [
  | inl x ↦ rw x refl
  | inr x ↦ rw x (lookup-same id e gs)
]

put_event_lem :
    (id : String) (e : JournalEvent) (c : Option String) (gs : Groups)
    → events_of (lookup id (put_event e c gs))
      ≡ (if belongs id c then events_of (lookup id gs) ++ e ∷ [] else events_of (lookup id gs))
unfolding put_event
put_event_lem id e none gs = refl
put_event_lem id e (some k) gs = elim (Bool-cases (k == id)) [
  | inl x ↦
      subst
        (λ n. events_of (lookup id (put_event e (some n) gs)) ≡ (
          if belongs id (some n)
          then events_of (lookup id gs) ++ e ∷ []
          else events_of (lookup id gs)))
        (sym ((eq_iff k id).0 x)) (rw (eq_refl id) (put_event-same id e gs))
  | inr x ↦ rw x (ap events_of (put_event-other id k e gs x))
]

pub group_lem :
    (id : String) (es : List JournalEvent) (gs : Groups)
    → events_of (lookup id (group es gs)) ≡ events_of (lookup id gs) ++ select (in_cycle id) es
unfolding group
group_lem id [] gs = sym (append-nil (events_of (lookup id gs)))
group_lem id (e ∷ es) gs =
    let next = group_lem id es (put_event e e.correlation_id gs) in
    let here = put_event_lem id e e.correlation_id gs in
    elim (Bool-cases (in_cycle id e)) [
      | inl x ↦
          next
          ∙ ap (λ l. l ++ select (in_cycle id) es) (rw x at here)
          ∙ rw x (append_assoc (events_of (lookup id gs)) (e ∷ []) (select (in_cycle id) es))
      | inr x ↦ next ∙ ap (λ l. l ++ select (in_cycle id) es) (rw x at here) ∙ rw x refl
    ]
