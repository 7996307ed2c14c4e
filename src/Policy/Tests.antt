-- ===== src/Policy/Tests.antt =====
-- Runs of the policy on one scope, and the theorems at concrete inputs.
mod Decisions
use mathlib.Core.Option
use qq_violation_bot.Prelude.{
  ℕ, ◌+◌, ◌*◌, ◌≡◌, refl, ◌≤◌, ◌<◌, true, false, none, some, [], ◌∷◌, ◌⊎◌, arith, pos, select,
  exists, update, ◌+ℤ◌, ◌==◌, if◌then◌else◌,
}
use qq_violation_bot.Prelude.{Result, raise as error}
use qq_violation_bot.Policy.Review.{InputError, replay_failed}
use qq_violation_bot.Policy.Records.Answers.{RecordAnswer, process_violation_record-RecordAnswer}
use qq_violation_bot.Policy.Records.{process_violation_record, apply_mute}
use qq_violation_bot.Policy.Records.Apply.{apply_mute-IsValid}
use qq_violation_bot.Policy.Status.Process.{
  process_status_change, KeepsScope, IsReplayed, logged_status, process_status_change-KeepsScope,
}
use qq_violation_bot.Policy.Types.{
  replay_review, pending, restart_clock, removed, Db, Policy, Cycle, ViolationRecord, PolicyOutcome,
  light, normal_status, normal, stop, active, pending_decision, no_tag, stop_tag, external, day,
  mute_recorded, empty_payload,
}
use qq_violation_bot.Policy.Keys.{key_eq}
use qq_violation_bot.Policy.Count.{
  all_records, sync_count_state, effective_total, max_time, projected_time, current_count,
}
use qq_violation_bot.Policy.Events.{
  NewEvent, insert_event, ensure_policy_state, update_policy, find_pending,
  policy_scope_under_review,
}
use qq_violation_bot.Policy.Cycles.{
  active_cycle, update_cycle, set_no_cycle, open_cycle, start_cycle, apply_reduction,
  record_reduction, reduction_amount, raised_level,
}
use qq_violation_bot.Policy.Settle.{
  settle_due_cycles, settle_loop, next_due, settle_one, settle_cycle, settle_good, finish_good,
  continue_normal, is_good, due_event, left_active,
}
use qq_violation_bot.Policy.Settle.Total.{Finished, settle_due_cycles-total}
use qq_violation_bot.Policy.Invariant.{IsValid, op_count}
use qq_violation_bot.Policy.Manual.{
  is_stopped, ok, start_manual_stop, clear_manual_stop, renew_manual_stop, reject_stop_suggestion,
  is_blank,
}
use qq_violation_bot.Policy.Manual.Keep.{Sound, manual_decisions-Sound}
use qq_violation_bot.Policy.Manual.Cleared.{ClearAnswer, clear_manual_stop-ClearAnswer}
use qq_violation_bot.Policy.Lifecycle.{open_cycles, started, noted, Run, rest, more}
use qq_violation_bot.Policy.Guards.{insert_event_twice}
use qq_violation_bot.Policy.Status.{IsSettledFor, apply_status, apply_status-IsSettledFor}
use qq_violation_bot.Policy.Resolve.{resolve_policy_review}
use qq_violation_bot.Policy.Resolve.Keep.{Reviewed, resolve_policy_review-Reviewed}
use qq_violation_bot.Policy.Replay.{reset_member_group_projection}
use qq_violation_bot.Policy.Replay.Clean.{IsReset, reset_member_group_projection-IsReset}
use qq_violation_bot.Policy.Reduction.{count_before, apply_reduction_exact}

abbrev mute : ℕ → ℕ → ViolationRecord
mute i at = record {
  id = i;
  violation_time = at;
  severity = light;
  mute_seconds = some 600;
  is_countable = true;
  count_delta = pos 1;
  is_withdrawn = false;
  is_test = false;
  is_mute = true;
}

abbrev policy : Policy
policy = record {
  policy_tag = no_tag;
  slow_level = 0;
  v102_operation_count = 0;
  baseline_adjustment = pos 0;
  baseline_deduct_count = 0;
  baseline_locked = false;
  baseline_status = normal_status;
  baseline_record_watermark = 0;
  baseline_last_final_warning_time = none;
  active_cycle_id = some 1;
  no_cycle_reason = none;
  pending_action_type = none;
  last_processed_event_id = none;
  state_version = 0;
  last_reason = none;
}

abbrev cycle : Cycle
cycle = record {
  id = 1;
  cycle_type = normal;
  start_at = 0;
  due_at = 14 * day;
  status = active;
  slow_level = 0;
  light_count = 0;
  normal_light_count = 0;
  slow_light_count = 0;
  severe_count = 0;
  slow_extended = false;
  suggestion_rejected = false;
  fixed_sequence = 0;
  replay_generation = 0;
  closed_reason = none;
  decision_event_id = none;
  settlement_event_id = none;
}

-- Two light mutes, and a normal cycle that is due after fourteen days.
abbrev scope : Db
scope = record {
  records = mute 1 0 ∷ mute 2 0 ∷ [];
  last_record = 2;
  business = record {
    status = normal_status;
    total_count = 2;
    deduct_count = 0;
    current_count_cache = 2;
    last_effective_violation_time = some 0;
    last_final_warning_time = none;
    locked = false;
  };
  policy = some policy;
  cycles = cycle ∷ [];
  events = [];
  other_events = [];
  pendings = [];
  jobs = [];
  next_cycle = 2;
  next_event = 1;
  next_pending = 1;
}

scope-IsValid : IsValid scope
scope-IsValid = record {
  limit = omega arith;
  pointed = (λ _. refl, tt);
  due = (λ _. omega arith, tt);
  ids = (omega arith, omega arith);
}

-- In 28 days two cycles are settled and two counts deducted, shown as the digits of one number.
settled_twice :
    Option.map
      (λ (r : ℕ × Db). r.0 * 10 + r.1.business.deduct_count)
      (settle_due_cycles scope (28 * day))
    ≡ some 22
unfolding settle_due_cycles settle_loop next_due settle_one settle_cycle settle_good finish_good
    continue_normal is_good due_event left_active sync_count_state effective_total max_time
    projected_time insert_event ensure_policy_state update_policy find_pending update_cycle
    set_no_cycle open_cycle start_cycle raised_level record_reduction reduction_amount key_eq
    policy_scope_under_review ◌+ℤ◌ select exists update
settled_twice = refl

settle_due_cycles-total_example :
    (r : ℕ × Db) × (settle_due_cycles scope (28 * day) ≡ some r)
    × IsValid r.1
    × Finished r.1 (28 * day)
settle_due_cycles-total_example = settle_due_cycles-total scope (28 * day) scope-IsValid

apply_status-IsSettledFor_example :
    IsSettledFor removed (apply_status scope 100 removed normal_status 9 0)
apply_status-IsSettledFor_example =
    apply_status-IsSettledFor scope 100 removed normal_status 9 0 scope-IsValid

manual_decisions-Sound_example :
    Sound (start_manual_stop scope 100 "spam" (external "k") none 0)
    × Sound (clear_manual_stop scope 100 "spam" (external "k") none 0)
    × Sound (renew_manual_stop scope 100 "spam" (external "k") none 0)
    × Sound (reject_stop_suggestion scope 100 "spam" (external "k") none 0)
manual_decisions-Sound_example =
    manual_decisions-Sound scope 100 "spam" (external "k") none 0 scope-IsValid

apply_reduction_exact_example :
    (((apply_reduction scope 2 all_records).0 ≡ 2)
        × (2 ≤ count_before scope policy refl 2 all_records)
        × (op_count scope < 5)
      ⊎ ((apply_reduction scope 2 all_records).0 ≡ 0)
        × ((count_before scope policy refl 2 all_records < 2) ⊎ (5 ≤ op_count scope)))
    × ((apply_reduction scope 2 all_records).1.business.deduct_count
        ≡ 0 + (apply_reduction scope 2 all_records).0)
    × (current_count (apply_reduction scope 2 all_records).1.business
          + (apply_reduction scope 2 all_records).0
        ≡ count_before scope policy refl 2 all_records)
    × (op_count (apply_reduction scope 2 all_records).1
        ≡ op_count scope + (if (apply_reduction scope 2 all_records).0 == 0 then 0 else 1))
apply_reduction_exact_example = apply_reduction_exact scope policy refl 2 all_records

abbrev first_event : NewEvent
first_event = record {
  event_type = mute_recorded;
  effective_time = 5;
  event_priority = 10;
  source_sequence = 1;
  ingest_time = 6;
  idempotency_key = external "k";
  payload = empty_payload;
  source_record_id = some 1;
  caused_by_event_id = none;
  replay_generation = 0;
}

insert_event_twice_example :
    insert_event (insert_event scope first_event).2 first_event
    ≡ ((insert_event scope first_event).0, false, (insert_event scope first_event).2)
insert_event_twice_example = insert_event_twice scope first_event first_event refl

apply_mute-IsValid_example : IsValid (apply_mute scope light 1 100 200 0).1
apply_mute-IsValid_example =
    apply_mute-IsValid scope light 1 100 200 0 scope-IsValid (λ ended. absurd (cc))
      (λ c full _. absurd (omega arith))

-- A replay that fails.
abbrev failing : Db → ℕ → ℕ → Result InputError Db
failing db trigger at = error replay_failed

process_violation_record-RecordAnswer_example :
    RecordAnswer failing scope 2 100 0 none (process_violation_record failing scope 2 100 0 none)
process_violation_record-RecordAnswer_example =
    process_violation_record-RecordAnswer failing scope 2 100 0 none scope-IsValid

process_status_change-KeepsScope_example :
    KeepsScope 100 200 (process_status_change failing scope removed 100 (external "k") 200 none 0)
    ⊎ IsReplayed failing 100 200 0
        (logged_status scope removed 100 (external "k") 200 none 0)
        (process_status_change failing scope removed 100 (external "k") 200 none 0)
process_status_change-KeepsScope_example =
    process_status_change-KeepsScope failing scope removed 100 (external "k") 200 none 0
      scope-IsValid

reset_member_group_projection-IsReset_example :
    IsReset scope 1 (reset_member_group_projection scope 1)
reset_member_group_projection-IsReset_example =
    reset_member_group_projection-IsReset scope 1 scope-IsValid

-- The scope with a review of the first mute's replay.
abbrev review_scope : Db
review_scope = record scope {
  pendings =
      record {
        id = 1;
        action_type = replay_review;
        status = pending;
        due_at = none;
        reason = "conflict";
        caused_by_event_id = 7;
        decision_event_id = none;
        idempotency_key = external "review";
      }
      ∷ [];
  next_pending = 2;
}

review_scope-IsValid : IsValid review_scope
review_scope-IsValid = record {
  limit = scope-IsValid.limit;
  pointed = scope-IsValid.pointed;
  due = scope-IsValid.due;
  ids = scope-IsValid.ids;
}

resolve_policy_review-Reviewed_example : Reviewed (
    resolve_policy_review
      (λ db. "f")
      review_scope
      1
      restart_clock
      "f"
      900
      "checked"
      "10001"
      (external "k"))
resolve_policy_review-Reviewed_example =
    resolve_policy_review-Reviewed (λ db. "f") review_scope 1 restart_clock "f" 900 "checked"
      "10001" (external "k") review_scope-IsValid
