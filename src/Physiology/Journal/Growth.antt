-- ===== src/Physiology/Journal/Growth.antt =====
-- What every call of the journal of app/physiology.py keeps: events are only added, their ids and their
-- receipts are unique, they are numbered 1, 2, …, and the offset of a consumer never goes back.
use mathlib.Core.List.{append-nil, append_assoc}
use gpt_project_bridge.Base.{
  ok_inj, ℕ, ◌+◌, ◌≤◌, String, ◌≡◌, refl, sym, ap, ◌∙◌, ◌⊎◌, inl, inr, false, Option, none, some,
  List, [], ◌∷◌, ◌++◌, arith, length, length-append, ok, err, Result-cases, Bool-cases, any_of,
  max_of, ◌==◌, eq_iff, if◌then◌else◌, ltb, value_error, ◌<>◌, subst,
}
use gpt_project_bridge.Base.Dict.{lookup}
use gpt_project_bridge.Base.Text.{strip, has_text}
use gpt_project_bridge.Base.Text.Strip.{strip-strip, has_text-strip}
use gpt_project_bridge.Base.Steps.{IsPreorder, Steps, Steps-lift, Steps-bind}
use gpt_project_bridge.Json.{Json}
use gpt_project_bridge.Host.{Host}
use gpt_project_bridge.Physiology.Journal.{
  JournalEvent, Journal, Entry, validate_label, new_event, find_event, conflicts, existing,
  insert_event, append, or_zero, consumer_offset, upsert, ack, set_state,
}

-- k + 1, k + 2, …
abbrev pub IsNumbered : ℕ → List JournalEvent → Type 0
IsNumbered k [] = Unit
IsNumbered k (e ∷ es) = (e.seq ≡ k + 1) × IsNumbered (k + 1) es

-- no event has an id or a receipt of one before it
abbrev pub IsUnique : List JournalEvent → List JournalEvent → Type 0
IsUnique before [] = Unit
IsUnique before (e ∷ es) = (any_of (conflicts e) before ≡ false) × IsUnique (before ++ e ∷ []) es

pub record IsJournal (j : Journal) : Type 0 where
  pub numbered : IsNumbered 0 j.events
  pub unique : IsUnique [] j.events
  pub bounded : (id : String) → or_zero (lookup id j.offsets) ≤ length j.events

pub record Extends (j j' : Journal) : Type 0 where
  pub added : List JournalEvent
  pub events : j'.events ≡ j.events ++ added
  pub offsets :
      IsJournal j → (id : String) → or_zero (lookup id j.offsets) ≤ or_zero (lookup id j'.offsets)
  pub journal : IsJournal j → IsJournal j'

pub Extends-order : IsPreorder Extends
Extends-order = record {
  refl_at = λ j. record {
    added = [];
    events = sym (append-nil j.events);
    offsets = λ w id. omega arith;
    journal = λ w. w;
  };
  trans_at = λ s t u g h. record {
    added = g.added ++ h.added;
    events = h.events ∙ ap (λ l. l ++ h.added) g.events ∙ append_assoc s.events g.added h.added;
    offsets = λ w id. omega (arith, g.offsets w id, h.offsets (g.journal w) id);
    journal = λ w. h.journal (g.journal w);
  };
}

IsNumbered-append :
    (k : ℕ) (es : List JournalEvent) (e : JournalEvent)
    → IsNumbered k es
    → e.seq ≡ k + length es + 1
    → IsNumbered k (es ++ e ∷ [])
IsNumbered-append k [] e n s = (omega arith, tt)
IsNumbered-append k (x ∷ es) e n s = (n.0, IsNumbered-append (k + 1) es e n.1 (omega arith))

IsUnique-append :
    (before es : List JournalEvent) (e : JournalEvent)
    → IsUnique before es
    → any_of (conflicts e) (before ++ es) ≡ false
    → IsUnique before (es ++ e ∷ [])
IsUnique-append before [] e u c =
    (subst (λ l. any_of (conflicts e) l ≡ false) (append-nil before) c, tt)
IsUnique-append before (x ∷ es) e u c = (
  u.0,
  IsUnique-append (before ++ x ∷ []) es e u.1
      (subst (λ l. any_of (conflicts e) l ≡ false) (sym (append_assoc before (x ∷ []) es)) c),
)

numbered-max :
    (k : ℕ) (es : List JournalEvent) → IsNumbered k es → max_of (λ e. e.seq) es ≤ k + length es
numbered-max k [] n = omega arith
numbered-max k (e ∷ es) n = omega (arith, numbered-max (k + 1) es n.1, n.0)

lookup-upsert :
    {A : Type 0} (key k : String) (v : A) (d : List (String × A))
    → ((k ≡ key) × (lookup k (upsert key v d) ≡ some v)) ⊎ (lookup k (upsert key v d) ≡ lookup k d)
unfolding upsert
lookup-upsert key k v [] = elim (Bool-cases (key == k)) [
  | inl t ↦ inl (sym ((eq_iff key k).0 t), rw t)
  | inr f ↦ inr (rw f)
]
lookup-upsert key k v ((l, w) ∷ d) = elim (Bool-cases (l == key)) [
  | inl t ↦ elim (Bool-cases (l == k)) [
    | inl u ↦ inl (sym ((eq_iff l k).0 u) ∙ (eq_iff l key).0 t, rw (t, u))
    | inr u ↦ inr (rw (t, u))
  ]
  | inr f ↦ elim (Bool-cases (l == k)) [
    | inl u ↦ inr (rw (f, u))
    | inr u ↦ rw (f, u) (lookup-upsert key k v d)
  ]
]

-- the event of an INSERT that went through
Extends-event :
    (j : Journal) (e : JournalEvent)
    → e.seq ≡ length j.events + 1
    → any_of (conflicts e) j.events ≡ false
    → Extends j (record j { events = j.events ++ e ∷ [] })
Extends-event j e s c = record {
  added = e ∷ [];
  events = refl;
  offsets = λ w id. omega arith;
  journal = λ w. record {
    numbered = IsNumbered-append 0 j.events e w.numbered (omega arith);
    unique = IsUnique-append [] j.events e w.unique c;
    bounded = λ id. omega (arith, length-append j.events (e ∷ []), w.bounded id);
  };
}

existing-same : (e : Entry) (o : Option JournalEvent) (j : Journal) → (existing e o j).1 ≡ j
unfolding existing
existing-same e none j = refl
existing-same e (some row) j = ground arith

insert_event-Extends :
    (H : Host) (created : ℕ) (e : Entry) → Steps Extends (insert_event H created e)
unfolding insert_event new_event
insert_event-Extends H created e = record {
  at = λ j.
      elim (Bool-cases
        (any_of (conflicts (new_event H e created (length j.events + 1))) j.events)) [
          | inl t ↦ rw t (
              subst (Extends j) (sym (existing-same e (find_event e.event_id j.events) j))
                (Extends-order.refl_at j))
          | inr f ↦ rw f (Extends-event j (new_event H e created (length j.events + 1)) refl f)
        ];
}

pub append-Extends : (H : Host) (created : ℕ) (e : Entry) → Steps Extends (append H created e)
unfolding append
append-Extends H created e =
    search (Steps-bind Extends-order, Steps-lift Extends-order, insert_event-Extends H created)
      depth 9

state-Extends :
    (j : Journal) (d : List (String × Json)) → Extends j (record j { runtime_state = d })
state-Extends j d = record {
  added = [];
  events = sym (append-nil j.events);
  offsets = λ w id. omega arith;
  journal = λ w. record { numbered = w.numbered; unique = w.unique; bounded = w.bounded };
}

pub set_state-Extends : (key : String) (v : Json) → Steps Extends (set_state key v)
unfolding set_state
set_state-Extends key v = record {
  at = λ j. elim (Result-cases (validate_label key "key")) [
    | inl (k, e) ↦ rw e (state-Extends j (upsert k v j.runtime_state))
    | inr (x, e) ↦ rw e (Extends-order.refl_at j)
  ];
}

-- a label that was accepted is accepted again as it is
label-again :
    (value name : String) {id : String}
    → validate_label value name ≡ ok id
    → validate_label id name ≡ ok id
unfolding validate_label
label-again value name {id} e = elim (Bool-cases (has_text value)) [
  | inr f ↦ cc (rw f at e)
  | inl t ↦
      let same : strip value ≡ id = ok_inj (rw t at e) in
      subst
        (λ x.
          (if has_text x
            then ok (strip x)
            else err (value_error (name <> " must be a non-empty string")))
          ≡ ok x)
        same (rw (has_text-strip value, t, strip-strip value))
]

offset-Extends :
    (j : Journal) (id : String) (seq : ℕ)
    → seq ≤ max_of (λ e. e.seq) j.events
    → or_zero (lookup id j.offsets) ≤ seq
    → Extends j (record j { offsets = upsert id seq j.offsets })
offset-Extends j id seq small later = record {
  added = [];
  events = sym (append-nil j.events);
  offsets = λ w k. elim (lookup-upsert id k seq j.offsets) [
    | inl (same, found) ↦
        rw (same, subst (λ x. lookup x (upsert id seq j.offsets) ≡ some seq) same found) later
    | inr other ↦ rw other (omega arith)
  ];
  journal = λ w. record {
    numbered = w.numbered;
    unique = w.unique;
    bounded = λ k. elim (lookup-upsert id k seq j.offsets) [
      | inl (same, found) ↦ rw found (omega (arith, numbered-max 0 j.events w.numbered))
      | inr other ↦ rw other (w.bounded k)
    ];
  };
}

pub ack-Extends : (consumer_id : String) (seq : ℕ) → Steps Extends (ack consumer_id seq)
unfolding ack consumer_offset
ack-Extends consumer_id seq = record {
  at = λ j. elim (Result-cases (validate_label consumer_id "consumer_id")) [
    | inr (x, e) ↦ rw e (Extends-order.refl_at j)
    | inl (id, e) ↦ elim (Bool-cases (ltb (max_of (λ e. e.seq) j.events) seq)) [
      | inl t ↦ rw (e, t) (Extends-order.refl_at j)
      | inr f ↦ elim (Bool-cases (ltb seq (or_zero (lookup id j.offsets)))) [
        | inl t ↦ rw (e, f, label-again consumer_id "consumer_id" e, t) (Extends-order.refl_at j)
        | inr g ↦
            rw (e, f, label-again consumer_id "consumer_id" e, g)
              (offset-Extends j id seq (ground arith) (ground arith))
      ]
    ]
  ];
}
