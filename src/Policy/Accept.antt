-- ===== src/Policy/Accept.antt =====
-- What resolve_policy_review of deduction_policy.py writes: the inputs that it accepts, and the
-- checkpoint. The key accepted_by_review of the payloads, which nothing reads, is left out.
use qq_violation_bot.Prelude.{
  ℕ, ◌+◌, ◌-◌, true, ◌||◌, none, some, List, [], ◌∷◌, String, update, leb, ◌==◌, if◌then◌else◌,
}
use qq_violation_bot.Policy.Types.{
  Db, Policy, Event, Payload, Pending, ViolationRecord, StatusJob, RecoveryMode, mute_recorded,
  status_changed, record_applied, mute_payload, status_payload, checkpoint_payload, is_pending,
}
use qq_violation_bot.Policy.Events.{NewEvent, insert_event, ensure_policy_state, update_policy}
use qq_violation_bot.Policy.Cycles.{active_cycle}
use qq_violation_bot.Policy.Records.{is_none_severity}

-- The inputs that the review accepts.
abbrev pub accepted_record : ViolationRecord → ℕ → NewEvent
accepted_record r at = record {
  event_type = mute_recorded;
  effective_time = r.violation_time;
  event_priority = 10;
  source_sequence = r.id;
  ingest_time = at;
  idempotency_key = record_applied r.id 0;
  payload = mute_payload r.severity r.mute_seconds none none;
  source_record_id = some r.id;
  caused_by_event_id = none;
  replay_generation = 0;
}

unfoldable pub accept_records : Db → ℕ → ℕ → List ViolationRecord → Db
accept_records db watermark at [] = db
accept_records db watermark at (r ∷ rs) =
    if is_none_severity r.severity || leb r.id watermark
    then accept_records db watermark at rs
    else accept_records (insert_event db (accepted_record r at)).2 watermark at rs

abbrev pub accepted_job : StatusJob → ℕ → NewEvent
accepted_job j at = record {
  event_type = status_changed;
  effective_time = j.effective_at;
  event_priority = 30;
  source_sequence = 0;
  ingest_time = at;
  idempotency_key = j.idempotency_key;
  payload = status_payload j.target_status;
  source_record_id = none;
  caused_by_event_id = none;
  replay_generation = 0;
}

unfoldable pub accept_job : Db → StatusJob → ℕ → Db
accept_job db j at =
    let (e, _, db') = insert_event db (accepted_job j at) in
    record db' {
      jobs =
          update (λ (k : StatusJob). k.id == j.id)
            (λ k. record k { is_applied = true; applied_event_id = some e }) db'.jobs;
    }

unfoldable pub accept_jobs : Db → ℕ → List StatusJob → Db
accept_jobs db at [] = db
accept_jobs db at (j ∷ js) = accept_jobs (accept_job db j at) at js

abbrev pub review_done : ℕ → Policy → Policy
review_done e p = record p {
  last_processed_event_id = some e;
  last_reason = some "review_resolved";
  state_version = p.state_version + 1;
}

abbrev pub open_pendings : List Pending → List Pending
open_pendings [] = []
open_pendings (p ∷ ps) =
    let rest = open_pendings ps in if is_pending p.status then p ∷ rest else rest

-- The two last UPDATEs.
unfoldable pub write_checkpoint : Db → ℕ → RecoveryMode → String → String → ℕ → Db
write_checkpoint db e mode reason actor i =
    let (p, db') = ensure_policy_state (update_policy (review_done e) db) in
    let snapshot : Payload = checkpoint_payload (record {
      reason = reason;
      actor = actor;
      pending_action_id = i;
      recovery_mode = mode;
      business = db'.business;
      policy = p;
      cycle = active_cycle db';
      pending_actions = open_pendings db'.pendings;
      event_watermark = db'.next_event - 1;
      record_watermark = db'.last_record;
    }) in
    record db' {
      events = update (λ (x : Event). x.id == e) (λ x. record x { payload = snapshot }) db'.events;
    }
