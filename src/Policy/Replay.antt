-- ===== src/Policy/Replay.antt =====
pub mod Clean
-- The reset of a scope before its replay: _reset_member_group_projection, and the inputs that
-- _replay_member_group reads.
use qq_violation_bot.Prelude.{
  ℕ, ◌+◌, Bool, true, false, not, ◌&&◌, ◌||◌, Option, none, some, List, [], ◌∷◌, ltb, update, ◌==◌,
  if◌then◌else◌,
}
use qq_violation_bot.Policy.Types.{
  Db, Policy, Cycle, Event, EventType, Pending, is_pending, no_tag, zero_count, cancelled,
  cancelled_action, mute_recorded, mute_duration_unknown, status_changed, manual_stop_started,
  manual_stop_cleared, manual_stop_renewed, stop_suggestion_rejected, policy_review_required,
  policy_review_resolved, baseline_migrated, record_withdrawn,
}
use qq_violation_bot.Policy.Count.{all_records, sync_count_state, current_count}
use qq_violation_bot.Policy.Events.{ensure_policy_state, update_policy, is_review}

-- _REPLAY_INPUT_TYPES
abbrev pub is_replay_input : EventType → Bool
is_replay_input mute_recorded = true
is_replay_input mute_duration_unknown = true
is_replay_input status_changed = true
is_replay_input manual_stop_started = true
is_replay_input manual_stop_cleared = true
is_replay_input manual_stop_renewed = true
is_replay_input stop_suggestion_rejected = true
is_replay_input _ = false

-- The types that the first UPDATE leaves effective.
abbrev pub is_kept_type : EventType → Bool
is_kept_type baseline_migrated = true
is_kept_type record_withdrawn = true
is_kept_type policy_review_required = true
is_kept_type policy_review_resolved = true
is_kept_type type = is_replay_input type

abbrev pub is_superseded : ℕ → Event → Bool
is_superseded trigger e =
    not (e.id == trigger) && (ltb 0 e.replay_generation || not (is_kept_type e.event_type))

abbrev pub supersede_event : ℕ → Event → Event
supersede_event trigger e = record e {
  is_effective = false;
  superseded_by_replay_id = some trigger;
}

abbrev pub supersede_cycle : Cycle → Cycle
supersede_cycle c = record c { status = cancelled; closed_reason = some "replay_superseded" }

abbrev pub cancel_pending : Pending → Pending
cancel_pending p = record p { status = cancelled_action }

abbrev pub reset_policy : Policy → Policy
reset_policy p = record p {
  policy_tag = no_tag;
  slow_level = 0;
  v102_operation_count = 0;
  active_cycle_id = none;
  no_cycle_reason = none;
  pending_action_type = none;
  last_processed_event_id = none;
  state_version = p.state_version + 1;
  last_reason = some "replay_reset";
}

-- The three UPDATEs of the rows, and the row of the business.
abbrev pub supersede_rows : Db → Policy → ℕ → Db
supersede_rows db p trigger =
    let b = db.business in
    record db {
      events = update (is_superseded trigger) (supersede_event trigger) db.events;
      cycles = update (λ c. true) supersede_cycle db.cycles;
      pendings =
          update (λ (a : Pending). is_pending a.status && not (is_review a.action_type))
            cancel_pending db.pendings;
      business = record b {
        deduct_count = p.baseline_deduct_count;
        status = p.baseline_status;
        locked = p.baseline_locked;
        last_final_warning_time = p.baseline_last_final_warning_time;
      };
    }

abbrev pub no_count : Policy → Policy
no_count p = record p { no_cycle_reason = some zero_count }

unfoldable pub reset_member_group_projection : Db → ℕ → Db
reset_member_group_projection db trigger =
    let (p, db₁) = ensure_policy_state db in
    let db₂ =
      sync_count_state (update_policy reset_policy (supersede_rows db₁ p trigger)) all_records in
    if current_count db₂.business == 0 then update_policy no_count db₂ else db₂

-- The SELECT of the inputs, before its ORDER BY.
abbrev pub is_input : ℕ → Event → Bool
is_input watermark e =
    e.replay_generation == 0
    && (e.is_effective && (ltb watermark e.id && is_replay_input e.event_type))

unfoldable pub inputs_of : ℕ → List Event → List Event
inputs_of watermark [] = []
inputs_of watermark (e ∷ es) =
    let rest = inputs_of watermark es in if is_input watermark e then e ∷ rest else rest
