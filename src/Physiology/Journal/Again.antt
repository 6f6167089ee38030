-- ===== src/Physiology/Journal/Again.antt =====
-- Appending an event again, in the journal of app/physiology.py: what was appended is found by its id,
-- and a second call with the same content returns it and changes nothing.
use gpt_project_bridge.Base.{
  ok_inj, ℕ, ◌+◌, String, ◌≡◌, refl, sym, ap, ◌∙◌, inl, inr, true, false, Option, none, some, List,
  [], ◌∷◌, ◌++◌, arith, length, Result, ok, Result-cases, Bool-cases, Option-cases, any_of,
  find_first-append, ◌==◌, eq_refl, opt_str_eq, subst,
}
use gpt_project_bridge.Json.{obj, json_eq}
use gpt_project_bridge.Host.{Host}
use gpt_project_bridge.Physiology.Journal.{
  JournalEvent, Journal, Entry, validate_label, new_event, find_event, conflicts, same_content,
  existing, insert_event, append,
}

-- the event is the first of its id, and has the content of the entry
pub record IsFound (e : Entry) (ev : JournalEvent) (j : Journal) : Type 0 where
  pub found : find_event e.event_id j.events ≡ some ev
  pub same : same_content e ev ≡ true

opt_str_eq_refl : (o : Option String) → opt_str_eq o o ≡ true
opt_str_eq_refl none = refl
opt_str_eq_refl (some s) = eq_refl s

new_event-same :
    (H : Host) (e : Entry) (created seq : ℕ)
    → json_eq (obj e.payload) (obj e.payload) ≡ true
    → same_content e (new_event H e created seq) ≡ true
unfolding same_content new_event
new_event-same H e created seq r = rw (
  eq_refl e.topic,
  eq_refl e.event_type,
  r,
  opt_str_eq_refl e.causation_id,
  opt_str_eq_refl e.correlation_id,
)

new_event-id :
    (H : Host) (e : Entry) (created seq : ℕ) → (new_event H e created seq).event_id ≡ e.event_id
unfolding new_event
new_event-id H e created seq = refl

find_event-new :
    (row : JournalEvent) (es : List JournalEvent)
    → any_of (conflicts row) es ≡ false
    → find_event row.event_id (es ++ row ∷ []) ≡ some row
unfolding find_event conflicts
find_event-new row [] c = rw (eq_refl row.event_id)
find_event-new row (x ∷ es) c = elim (Bool-cases (x.event_id == row.event_id)) [
  | inl t ↦ absurd (ground arith)
  | inr f ↦ rw f (find_event-new row es (ground arith))
]

found-conflicts :
    (row : JournalEvent) (es : List JournalEvent) (ev : JournalEvent)
    → find_event row.event_id es ≡ some ev
    → any_of (conflicts row) es ≡ true
unfolding find_event conflicts
found-conflicts row [] ev f = cc f
found-conflicts row (x ∷ es) ev f = elim (Bool-cases (x.event_id == row.event_id)) [
  | inl t ↦ rw t
  | inr g ↦ elim (Bool-cases (x.receipt_hash == row.receipt_hash)) [
    | inl t ↦ rw (g, t)
    | inr h ↦ rw (g, h) (found-conflicts row es ev (rw g at f))
  ]
]

insert_event-IsFound :
    (H : Host) (created : ℕ) (e : Entry) (j : Journal) {ev : JournalEvent} {j' : Journal}
    → json_eq (obj e.payload) (obj e.payload) ≡ true
    → insert_event H created e j ≡ (ok ev, j')
    → IsFound e ev j'
unfolding insert_event existing
insert_event-IsFound H created e j {ev} {j'} r p =
    elim (Bool-cases (any_of (conflicts (new_event H e created (length j.events + 1))) j.events)) [
      | inr f ↦
          let row : JournalEvent = new_event H e created (length j.events + 1) in
          let grown : Journal = record j { events = j.events ++ row ∷ [] } in
          let done : ◌≡◌ {A = Result JournalEvent × Journal} (ok row, grown) (ok ev, j') =
            rw f at p in
          let back : row ≡ ev = ok_inj (ap (λ q. q.0) done) in
          record {
            found =
                subst (λ (x : Journal). find_event e.event_id x.events ≡ some ev)
                  (ap (λ q. q.1) done)
                  (subst (λ id. find_event id (j.events ++ row ∷ []) ≡ some row)
                      (new_event-id H e created (length j.events + 1))
                      (find_event-new row j.events f)
                    ∙ ap some back);
            same =
                subst (λ x. same_content e x ≡ true) back
                  (new_event-same H e created (length j.events + 1) r);
          }
      | inl t ↦ elim (Option-cases (find_event e.event_id j.events)) [
        | inl gone ↦ absurd (ground arith)
        | inr (row, found) ↦ elim (Bool-cases (same_content e row)) [
          | inr other ↦ absurd (ground arith)
          | inl same ↦
              let back : row ≡ ev = ground arith in
              let stays : j ≡ j' = ground arith in
              record {
                found =
                    subst (λ (x : Journal). find_event e.event_id x.events ≡ some ev) stays
                      (found ∙ ap some back);
                same = subst (λ x. same_content e x ≡ true) back same;
              }
        ]
      ]
    ]

IsFound-insert :
    (H : Host) (created : ℕ) (e : Entry) (ev : JournalEvent) (j : Journal)
    → IsFound e ev j
    → insert_event H created e j ≡ (ok ev, j)
unfolding insert_event existing
IsFound-insert H created e ev j w =
    let clash = found-conflicts (new_event H e created (length j.events + 1)) j.events ev (
      subst (λ id. find_event id j.events ≡ some ev)
        (sym (new_event-id H e created (length j.events + 1))) w.found) in
    rw (clash, w.found, w.same)

-- the entry that `append` inserts
labelled : Entry → (event_id topic event_type : String) → Entry
labelled e event_id topic event_type = record e {
  event_id = event_id;
  topic = topic;
  event_type = event_type;
}

-- an append that returned has stripped three labels
append-labels :
    (H : Host) (created : ℕ) (e : Entry) (j : Journal) {ev : JournalEvent} {j' : Journal}
    → append H created e j ≡ (ok ev, j')
    → (event_id : String) × (topic : String) × (event_type : String) × ((again : ℕ)
          (later : Journal)
        → append H again e later
          ≡ insert_event H again (labelled e event_id topic event_type) later)
unfolding append labelled
append-labels H created e j p = elim (Result-cases (validate_label e.event_id "event_id")) [
  | inr (x, q) ↦ absurd (ground arith)
  | inl (event_id, a) ↦ elim (Result-cases (validate_label e.topic "topic")) [
    | inr (x, q) ↦ absurd (ground arith)
    | inl (topic, b) ↦ elim (Result-cases (validate_label e.event_type "event_type")) [
      | inr (x, q) ↦ absurd (ground arith)
      | inl (event_type, c) ↦ (event_id, topic, event_type, λ again later. rw (a, b, c))
    ]
  ]
]

labelled-payload :
    (e : Entry) (event_id topic event_type : String)
    → json_eq (obj e.payload) (obj e.payload) ≡ true
    → json_eq
        (obj (labelled e event_id topic event_type).payload)
        (obj (labelled e event_id topic event_type).payload)
      ≡ true
unfolding labelled
labelled-payload e event_id topic event_type r = r

found-later :
    (id : String) (es added : List JournalEvent) (ev : JournalEvent)
    → find_event id es ≡ some ev
    → find_event id (es ++ added) ≡ some ev
unfolding find_event
found-later id es added ev f = find_first-append _ es added ev f

-- An event that was appended, with a payload that is equal to itself, is appended again by any later
-- call with the same content, after any events behind it and at any time: the call returns the first
-- event and changes nothing.
pub append-append :
    (H : Host) (created again : ℕ) (e : Entry) (j later : Journal) (added : List JournalEvent)
    {ev : JournalEvent} {j' : Journal}
    → json_eq (obj e.payload) (obj e.payload) ≡ true
    → append H created e j ≡ (ok ev, j')
    → later.events ≡ j'.events ++ added
    → append H again e later ≡ (ok ev, later)
append-append H created again e j later added {ev} {j'} r p grown =
    let (event_id, topic, event_type, eq) = append-labels H created e j p in
    let w =
      insert_event-IsFound H created (labelled e event_id topic event_type) j {ev = ev} {j' = j'}
        (labelled-payload e event_id topic event_type r) (sym (eq created j) ∙ p) in
    eq again later
    ∙ IsFound-insert H again (labelled e event_id topic event_type) ev later (record {
      found =
          subst (λ l. find_event (labelled e event_id topic event_type).event_id l ≡ some ev)
            (sym grown)
            (found-later (labelled e event_id topic event_type).event_id j'.events added ev
              w.found);
      same = w.same;
    })
