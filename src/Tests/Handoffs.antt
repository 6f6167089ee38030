-- ===== src/Tests/Handoffs.antt =====
-- Handoffs between two models at concrete inputs.
use gpt_project_bridge.Base.{◌≡◌, refl, none, List, [], ◌∷◌, ok}
use gpt_project_bridge.Json.{str, end, to_fields}
use gpt_project_bridge.Host.{stable_hash}
use gpt_project_bridge.Storage.Tables.{Db, Env, SessionRow, HandoffRow, empty}
use gpt_project_bridge.Storage.Ledger.{Receipt, append_ledger_tx, stamp, head, link}
use gpt_project_bridge.ModelBridge.Defs.{build_handoff_digest, assert_transferable_state}
use gpt_project_bridge.Storage.Sessions.{find_session}
use gpt_project_bridge.Storage.Handoffs.{
  Sending, handoff_row, send_handoff, check_sending, bad_parent, handoff_of, place_handoff,
  insert_handoff, handoff_event, next_session_seq, append_model_handoff,
}
use gpt_project_bridge.Storage.Handoffs.Sent.{IsSent, append_model_handoff-IsSent}
use gpt_project_bridge.Storage.Handoffs.Mailbox.{IsMailbox}
use gpt_project_bridge.Storage.Calls.{Call, handoff, ack, perform_all}
use gpt_project_bridge.Storage.Calls.Mail.{IsMailbox-perform_all}
use gpt_project_bridge.Tests.Ledger.{constant_host, plain_host, digest, env}

abbrev session : SessionRow
session = record {
  session_id = "s-1";
  protocol_version = "matverse.model-bridge.v1.1";
  contract = [];
  contract_hash = "c-1";
  participants =
      record { participant_id = "gpt"; info = end }
      ∷ record { participant_id = "claude"; info = end }
      ∷ [];
  created_by = "gpt";
  created_at = "2026-01-01";
}

abbrev opened : Db
opened = record empty { sessions = session ∷ [] }

abbrev greeting : Sending
greeting = record {
  session_id = "s-1";
  from_participant = "gpt";
  to_participant = "claude";
  parent_handoff_id = none;
  payload = to_fields (("kind", str "greeting") ∷ []);
  expected_contract_hash = "c-1";
}

opened-IsMailbox : IsMailbox opened
opened-IsMailbox = record { routed = tt; numbered = λ id. tt }

abbrev exchange : List (Env × Call)
exchange = (env, handoff greeting) ∷ (env, ack "mh_1" "claude") ∷ (env, handoff greeting) ∷ []

IsMailbox-perform_all_example : IsMailbox (perform_all plain_host exchange opened)
IsMailbox-perform_all_example = IsMailbox-perform_all plain_host exchange opened opened-IsMailbox

abbrev sent_row : HandoffRow
sent_row = handoff_row env greeting 1 digest

abbrev sent_receipt : Receipt
sent_receipt = record { seq = 1; prev_hash = "GENESIS"; event_hash = digest; decision = "PASS" }

abbrev after : Db
after = (append_model_handoff constant_host env greeting opened).1

greeting-sent :
    append_model_handoff constant_host env greeting opened ≡ (ok (sent_row, sent_receipt), after)
unfolding append_model_handoff send_handoff check_sending find_session bad_parent
    build_handoff_digest assert_transferable_state handoff_of place_handoff insert_handoff
    append_ledger_tx stamp handoff_event next_session_seq stable_hash head link
greeting-sent = refl

append_model_handoff-IsSent_example : IsSent constant_host env greeting opened sent_row after
append_model_handoff-IsSent_example =
    append_model_handoff-IsSent constant_host env greeting opened {row = sent_row}
      {receipt = sent_receipt} {db' = after} greeting-sent
