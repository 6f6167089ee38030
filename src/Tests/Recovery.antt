-- ===== src/Tests/Recovery.antt =====
-- The recovery of the physiology at a concrete journal.
use gpt_project_bridge.Base.{
  suc, length, ◌≡◌, not, ◌&&◌, some, String, List, [], ◌∷◌, ok, any_of, select, ◌==◌,
}
use gpt_project_bridge.Physiology.Journal.{empty_journal, append, on_topic}
use gpt_project_bridge.Physiology.Journal.Growth.{IsJournal}
use gpt_project_bridge.Physiology.Journal.History.{append_call, perform_all, perform_all-IsJournal}
use gpt_project_bridge.Physiology.Recovery.{
  IncompleteCycle, is_terminal, all_events, find_incomplete_cycles,
}
use gpt_project_bridge.Physiology.Recovery.Pages.{all_events_lem}
use gpt_project_bridge.Physiology.Recovery.Groups.{in_cycle}
use gpt_project_bridge.Physiology.Recovery.Open.{find_incomplete_cycles_lem}
use gpt_project_bridge.Tests.Physiology.{counting, started, after, empty-IsJournal}

after-IsJournal : IsJournal after
unfolding append perform_all
after-IsJournal =
    (perform_all-IsJournal counting (append_call 10 started ∷ []) empty_journal empty-IsJournal).1

all_events_lem_example :
    all_events (suc (length after.events)) 0 "physiology" after
    ≡ (ok (some (select (on_topic (some "physiology")) after.events)), after)
all_events_lem_example = all_events_lem "physiology" after after-IsJournal

find_incomplete_cycles_lem_example :
    let es = select (on_topic (some "physiology")) after.events in
    (cs : List IncompleteCycle) × (find_incomplete_cycles (suc (length after.events)) after
      ≡ (ok (some cs), after))
    × ((id : String)
        → any_of (λ c. c.cycle_id == id) cs ≡ (
            any_of (λ e. in_cycle id e && e.event_type == "TICK") es
            && not (any_of (λ e. in_cycle id e && is_terminal e) es)))
find_incomplete_cycles_lem_example = find_incomplete_cycles_lem after after-IsJournal
