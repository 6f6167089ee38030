-- ===== src/Physiology/Recovery/Open.antt =====
-- Which cycles app/physiology_recovery.py finds incomplete.
use gpt_project_bridge.Base.{
  suc, length, Result, ok, pure, ◌>>=◌, String, ◌≡◌, refl, sym, ap, ◌∙◌, Bool, true, false, not,
  ◌&&◌, ◌||◌, Option, none, some, List, [], ◌∷◌, any_of, any_of-sort_by, any_of-select, select,
  sort_by, Bool-cases, inl, inr, ◌==◌,
}
use gpt_project_bridge.Physiology.Journal.{JournalEvent, Journal, on_topic}
use gpt_project_bridge.Physiology.Journal.Growth.{IsJournal}
use gpt_project_bridge.Physiology.Recovery.Pages.{all_events_lem}
use gpt_project_bridge.Physiology.Recovery.{
  IncompleteCycle, group, is_terminal, is_open, incomplete, open_cycles, incomplete_in,
  find_incomplete_cycles,
}
use gpt_project_bridge.Physiology.Recovery.Groups.{
  Groups, has_open, open_of, group-IsDistinct, in_cycle, group_lem,
}

is_open-sort :
    (es : List JournalEvent) → is_open (sort_by (λ (e : JournalEvent). e.seq) es) ≡ is_open es
unfolding is_open
is_open-sort es =
    rw
      (
        any_of-sort_by (λ (e : JournalEvent). e.event_type == "TICK") (λ (e : JournalEvent). e.seq)
            es,
        any_of-sort_by is_terminal (λ (e : JournalEvent). e.seq) es,
      )
      refl

cond_true : (b c : Bool) → (b || c) ≡ ((b && true) || c)
cond_true true c = refl
cond_true false c = refl

cond_false : (b c : Bool) → c ≡ ((b && false) || c)
cond_false true c = refl
cond_false false c = refl

open_cycles_lem :
    (id : String) (gs : Groups)
    → any_of (λ (c : IncompleteCycle). c.cycle_id == id) (open_cycles gs) ≡ has_open id gs
unfolding open_cycles incomplete
open_cycles_lem id [] = refl
open_cycles_lem id ((k, es) ∷ gs) =
    let same = is_open-sort es in
    let rest = open_cycles_lem id gs in
    elim (Bool-cases (is_open (sort_by (λ (e : JournalEvent). e.seq) es))) [
      | inl x ↦ rw (x, sym same ∙ x, rest) (cond_true (k == id) (has_open id gs))
      | inr x ↦ rw (x, sym same ∙ x, rest) (cond_false (k == id) (has_open id gs))
    ]

is_open-select :
    (q : JournalEvent → Bool) (es : List JournalEvent)
    → is_open (select q es) ≡ (
        any_of (λ e. q e && e.event_type == "TICK") es
        && not (any_of (λ e. q e && is_terminal e) es))
unfolding is_open
is_open-select q es =
    rw
      (
        any_of-select (λ (e : JournalEvent). e.event_type == "TICK") q es,
        any_of-select is_terminal q es,
      )
      refl

incomplete_in_lem :
    (id : String) (es : List JournalEvent)
    → any_of (λ (c : IncompleteCycle). c.cycle_id == id) (incomplete_in es) ≡ (
        any_of (λ e. in_cycle id e && e.event_type == "TICK") es
        && not (any_of (λ e. in_cycle id e && is_terminal e) es))
unfolding incomplete_in
incomplete_in_lem id es =
    any_of-sort_by (λ (c : IncompleteCycle). c.cycle_id == id)
      (λ (c : IncompleteCycle). c.first_seq) (open_cycles (group es []))
    ∙ open_cycles_lem id (group es [])
    ∙ open_of id (group es []) (group-IsDistinct es [] tt)
    ∙ ap is_open (group_lem id es [])
    ∙ is_open-select (in_cycle id) es

-- Of a journal in order, find_incomplete_cycles returns and changes nothing, and it finds a cycle
-- exactly if its name is not empty and the journal has, under the topic and the name of the cycle, a
-- TICK and neither a MEMORY_COMMIT nor a CYCLE_ABORTED.
pub find_incomplete_cycles_lem :
    (j : Journal)
    → IsJournal j
    → let es = select (on_topic (some "physiology")) j.events in
      (cs : List IncompleteCycle) × (find_incomplete_cycles (suc (length j.events)) j
        ≡ (ok (some cs), j))
      × ((id : String)
          → any_of (λ c. c.cycle_id == id) cs ≡ (
              any_of (λ e. in_cycle id e && e.event_type == "TICK") es
              && not (any_of (λ e. in_cycle id e && is_terminal e) es)))
unfolding find_incomplete_cycles
find_incomplete_cycles_lem j w =
    let es = select (on_topic (some "physiology")) j.events in
    (
      incomplete_in es,
      ap
          (λ (r : Result (Option (List JournalEvent)) × Journal).
            ◌>>=◌ {S = Journal} {A = Option (List JournalEvent)} {B = Option (List IncompleteCycle)}
              (λ s. r)
              (λ found. pure (elim found [ none ↦ none | some es ↦ some (incomplete_in es) ])) j)
          (all_events_lem "physiology" j w),
      λ id. incomplete_in_lem id es,
    )
