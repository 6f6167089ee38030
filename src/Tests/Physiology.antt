-- ===== src/Tests/Physiology.antt =====
-- The journal, the assessment and a cycle of the physiology at concrete inputs.
use Prim.Native.Char.{code}
use gpt_project_bridge.Organism.Evaluate.{
  first_match, conclude, record_evaluation, event_evidence, ruling, event_receipt, evaluate,
}
use gpt_project_bridge.Organism.Loop.{is_evaluation}
use gpt_project_bridge.Physiology.Engine.Sense.{log, open_cycle, assessment, plan_step, observe}
use gpt_project_bridge.Json.Dump.{canonical_json}
use gpt_project_bridge.Evidence.{evidence_receipt, merkle_pair, evidence_core, receipt_hash}
use gpt_project_bridge.Base.{
  arith, ℕ, ◌+◌, ◌*◌, ◌/◌, ◌%◌, ◌≤◌, String, ◌≡◌, ◌≢◌, refl, ◌↔◌, ◌⊎◌, true, false, not, none, some,
  List, [], ◌∷◌, ◌++◌, ok, ltb, leb,
}
use gpt_project_bridge.Base.Dict.{lookup}
use gpt_project_bridge.Base.Text.{strip, has_text, decimal}
use gpt_project_bridge.Json.{put, str, num, obj, to_fields, json_eq}
use gpt_project_bridge.Host.{stable_hash, Host}
use gpt_project_bridge.Core.{omega_gate, evaluate_hdb, value, pass}
use gpt_project_bridge.Organism.State.{
  item_json, sorted_constraints, state_root, cached, mark_state_mutated, state_payload,
}
use gpt_project_bridge.Physiology.Journal.{
  conflicts, find_event, upsert, set_state, event_core, new_event, insert_event, validate_label,
  JournalEvent, Journal, empty_journal, Entry, append, or_zero,
}
use gpt_project_bridge.Physiology.Journal.Growth.{IsJournal}
use gpt_project_bridge.Physiology.Journal.History.{
  JournalCall, append_call, ack_call, perform_all, perform_all-IsJournal,
}
use gpt_project_bridge.Physiology.Journal.Again.{append-append}
use gpt_project_bridge.Physiology.Controller.{
  health_value, action_value, verdict, plan_normal, plan_recovery, Floats, nothing, normal,
  degraded, critical, TelemetrySample, HomeostaticPolicy, RuntimeState, assess, disk_free_ratio,
  rss_above,
}
use gpt_project_bridge.Physiology.Controller.Assess.{IsBad, assess_lem}
use gpt_project_bridge.Physiology.Controller.Streak.{plan_all, reaches, plan_all-in_safe_mode}
use gpt_project_bridge.Physiology.Engine.{
  on_journal, on_organism, runtime_json, persist_runtime_state, entry, sample_json, Engine, Setting,
  returned,
}
use gpt_project_bridge.Physiology.Engine.Act.{
  effect_of, record_attempt, execute, carry_out, log_decision, decide, question, submit, act, Asked,
}
use gpt_project_bridge.Physiology.Engine.Cycle.{
  cycle_core, close_cycle, finish, proceed, CycleResult, tick,
}
use gpt_project_bridge.Physiology.Engine.Executed.{Executed, tick-Executed}

unfoldable pub checksum : ℕ → String → ℕ
checksum h String.[] = h
checksum h (String.◌∷◌ c s) = checksum ((h * 31 + code c) % 1000003) s

unfoldable pub digest_of : String → String
unfolding checksum decimal
digest_of s = decimal (checksum 7 s)

-- a host whose digest is a checksum of the text
abbrev pub counting : Host
counting = record {
  sha256 = digest_of;
  sha256_of_hex = digest_of;
  hmac_sha256 = λ k s. digest_of s;
  py_str = λ v. "value";
  json_loads = λ s. some (str s);
}

-- a float as a number of hundredths
abbrev pub hundredths : Floats
hundredths = record {
  F = ℕ;
  zero_f = 0;
  one_f = 100;
  lt = ltb;
  le = leb;
  ratio = λ a b. (a * 100) / b;
  dump = num;
}

abbrev pub started : Entry
started = record {
  event_id = " e-1 ";
  topic = "physiology";
  event_type = "TICK";
  payload = to_fields (("n", num 1) ∷ []);
  causation_id = none;
  correlation_id = some "c-1";
}

abbrev calls : List JournalCall
calls =
    append_call 10 started ∷ ack_call "reader" 1 ∷ append_call 11 started ∷ ack_call "reader" 0 ∷ []

pub empty-IsJournal : IsJournal empty_journal
empty-IsJournal = record { numbered = tt; unique = tt; bounded = λ id. omega arith }

perform_all-IsJournal_example :
    let j' = perform_all counting calls empty_journal in
    ((added : List JournalEvent) × (j'.events ≡ [] ++ added))
    × IsJournal j'
    × ((id : String) → 0 ≤ or_zero (lookup id j'.offsets))
perform_all-IsJournal_example = perform_all-IsJournal counting calls empty_journal empty-IsJournal

abbrev first : JournalEvent
first = record {
  seq = 1;
  event_id = "e-1";
  topic = "physiology";
  event_type = "TICK";
  payload = to_fields (("n", num 1) ∷ []);
  created_ns = 10;
  causation_id = none;
  correlation_id = some "c-1";
  receipt_hash = "38146";
}

abbrev pub after : Journal
after = (append counting 10 started empty_journal).1

append-first : append counting 10 started empty_journal ≡ (ok first, after)
unfolding append validate_label has_text insert_event new_event strip receipt_hash digest_of
    canonical_json evidence_core event_core
append-first = refl

payload-json_eq : json_eq (obj started.payload) (obj started.payload) ≡ true
unfolding json_eq
payload-json_eq = refl

append-append_example : append counting 99 started after ≡ (ok first, after)
unfolding append validate_label has_text insert_event
append-append_example =
    append-append counting 10 99 started empty_journal after [] payload-json_eq append-first refl

abbrev pub policy : HomeostaticPolicy hundredths
policy = record {
  min_disk_free_ratio = 5;
  max_rss_bytes = some 1000;
  degraded_disk_free_ratio = 10;
  normal_streak_to_exit_safe_mode = 2;
}

abbrev pub sample : TelemetrySample hundredths
sample = record {
  monotonic_ns = 5;
  process_time_ns = 4;
  disk_total_bytes = 200;
  disk_used_bytes = 100;
  disk_free_bytes = 100;
  rss_bytes = some 900;
  load_1m = none;
  instruments = [];
}

assess_lem_example :
    let state = (assess hundredths policy sample true).state in
    let low = hundredths.lt (disk_free_ratio hundredths sample) 5 in
    let above = rss_above hundredths (some 1000) (some 900) in
    ((state ≡ critical) ↔ IsBad true low above)
    × ((state ≡ degraded) ↔ (
        (IsBad true low above → ⊥) × (hundredths.lt (disk_free_ratio hundredths sample) 10 ≡ true)))
    × ((state ≡ critical) ⊎ ((state ≡ degraded) ⊎ (state ≡ normal)))
assess_lem_example = assess_lem hundredths policy sample true

abbrev pub awake : RuntimeState
awake = record { cycle_seq = 0; in_safe_mode = false; normal_streak = 0; throttled = false }

plan_all-in_safe_mode_example :
    (plan_all 2 (degraded ∷ critical ∷ normal ∷ degraded ∷ normal ∷ normal ∷ []) awake).in_safe_mode
    ≡ not (reaches 2 0 (normal ∷ degraded ∷ normal ∷ normal ∷ []))
plan_all-in_safe_mode_example =
    plan_all-in_safe_mode 2 (degraded ∷ []) (normal ∷ degraded ∷ normal ∷ normal ∷ []) awake refl

abbrev pub setting : Setting hundredths
setting = record {
  policy = policy;
  executor = some (λ proposal. returned "DONE" proposal);
  sample = sample;
  journal_ok = true;
  clock = λ n. n;
}

abbrev pub engine : Engine
engine = record {
  organism = record {
    organism_id = "o-1";
    runtime_id = "r-1";
    authority_secrets = [];
    gate_fingerprint = "g";
    constitutional_contract_hash = "c";
    constraints = [];
    lineage = [];
    state_generation = 0;
    cached_state_root = none;
    cached_state_generation = none;
  };
  journal = empty_journal;
  runtime = awake;
}

abbrev pub asked : Asked
asked = record {
  proposal = some (to_fields (("action", str "READ") ∷ []));
  human = none;
  checks = record { ontology_ok = true; signature_valid = true; transition_valid = true };
}

abbrev pub out : CycleResult
out = record {
  cycle_id = "212564";
  cycle_seq = 1;
  health = normal;
  recovery_action = nothing;
  decision = some pass;
  executed = true;
  state_root = "193033";
  receipt_hash = "563865";
}

tick-out :
    tick counting hundredths setting asked engine
    ≡ (ok out, (tick counting hundredths setting asked engine).1)
unfolding on_journal on_organism runtime_json persist_runtime_state entry sample_json log open_cycle
    assessment plan_step observe effect_of record_attempt execute carry_out log_decision decide
    question submit act cycle_core close_cycle finish proceed tick validate_label event_core
    new_event find_event insert_event append upsert set_state health_value action_value
    disk_free_ratio rss_above verdict assess plan_normal plan_recovery sorted_constraints state_root
    cached mark_state_mutated state_payload is_evaluation first_match conclude record_evaluation
    event_evidence ruling event_receipt evaluate evidence_receipt evidence_core merkle_pair
    receipt_hash omega_gate evaluate_hdb value stable_hash put canonical_json has_text strip decimal
    digest_of conflicts gpt_project_bridge.Organism.Evaluate.event_core item_json
tick-out = refl

tick-Executed_example :
    Executed counting hundredths setting asked engine out
      (tick counting hundredths setting asked engine).1
    × (out.health ≢ critical)
tick-Executed_example =
    tick-Executed counting hundredths setting asked engine {r = out}
      {t = (tick counting hundredths setting asked engine).1} tick-out refl
