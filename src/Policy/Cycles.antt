-- ===== src/Policy/Cycles.antt =====
-- The cycles of a scope: _active_cycle, _set_no_cycle, _start_cycle, _enter_slow,
-- _cancel_active_cycle, _apply_reduction.
use qq_violation_bot.Prelude.{
  ℕ, ◌+◌, ◌*◌, Bool, true, false, ◌&&◌, Option, none, some, [], ◌∷◌, ◌++◌, String, select, update,
  ltb, leb, ◌==◌, if◌then◌else◌,
}
use qq_violation_bot.Policy.Types.{
  Db, Policy, Cycle, CycleType, CycleStatus, PolicyTag, NoCycleReason, normal, slow, stop,
  final_warning, active, cancelled, no_tag, slow_tag, stop_tag, zero_count, operation_limit,
  terminal_status, cycle_started, slow_entered, event_cycle_started, event_cycle_slow,
  started_payload, slow_payload, day, is_terminal, is_normal, is_slow, is_normal_or_slow, is_open,
}
use qq_violation_bot.Policy.Count.{Cutoff, sync_count_state, current_count}
use qq_violation_bot.Policy.Events.{insert_event, ensure_policy_state, update_policy}

abbrev pub has_id : ℕ → Cycle → Bool
has_id i c = c.id == i

abbrev pub active_cycle_id : Db → Option ℕ
active_cycle_id db = elim db.policy [ none ↦ none | some p ↦ p.active_cycle_id ]

-- JOIN v102_policy_state ON active_cycle_id=c.id, with the two open statuses.
unfoldable pub find_open : Option ℕ → Db → Option Cycle
find_open none db = none
find_open (some i) db = select (λ (c : Cycle). has_id i c && is_open c.status) db.cycles

unfoldable pub active_cycle : Db → Option Cycle
unfolding find_open
active_cycle db = find_open (active_cycle_id db) db

-- UPDATE v102_policy_cycles SET … WHERE id=?
unfoldable pub update_cycle : ℕ → (Cycle → Cycle) → Db → Db
update_cycle i f db = record db { cycles = update (has_id i) f db.cycles }

unfoldable pub set_no_cycle : Db → NoCycleReason → Bool → Db
unfolding update_policy
set_no_cycle db reason preserve_tag =
    update_policy
      (λ p. record p {
        policy_tag = if preserve_tag then p.policy_tag else no_tag;
        active_cycle_id = none;
        no_cycle_reason = some reason;
        pending_action_type = none;
        state_version = p.state_version + 1;
      })
      db

-- The days of a new cycle; a slow cycle's level has been raised.
unfoldable pub length_days : CycleType → ℕ → ℕ
length_days normal level = 14
length_days slow level = 14 + 7 * level
length_days stop level = 30
length_days final_warning level = 90

unfoldable pub cycle_tag : CycleType → PolicyTag
cycle_tag normal = no_tag
cycle_tag slow = slow_tag
cycle_tag stop = stop_tag
cycle_tag final_warning = stop_tag

unfoldable pub raised_level : CycleType → ℕ → ℕ
raised_level t level = if is_slow t then level + 1 else level

unfoldable pub cycle_row : ℕ → CycleType → ℕ → ℕ → ℕ → ℕ → Cycle
unfolding length_days
cycle_row i t start_at level fixed_sequence generation = record {
  id = i;
  cycle_type = t;
  start_at = start_at;
  due_at = start_at + length_days t level * day;
  status = active;
  slow_level = if is_slow t then level else 0;
  light_count = 0;
  normal_light_count = 0;
  slow_light_count = 0;
  severe_count = 0;
  slow_extended = false;
  suggestion_rejected = false;
  fixed_sequence = fixed_sequence;
  replay_generation = generation;
  closed_reason = none;
  decision_event_id = none;
  settlement_event_id = none;
}

-- The INSERT of _start_cycle, its `cycle_started` event, and the pointer of the policy row.
unfoldable pub open_cycle : Db → CycleType → ℕ → ℕ → ℕ → ℕ → ℕ → Db
unfolding cycle_row cycle_tag insert_event update_policy
open_cycle db t start_at level caused_by fixed_sequence generation =
    let i = db.next_cycle in
    let c = cycle_row i t start_at level fixed_sequence generation in
    let (e, _, db') =
      insert_event (record db { cycles = db.cycles ++ c ∷ []; next_cycle = i + 1 })
        (record {
          event_type = cycle_started;
          effective_time = start_at;
          event_priority = 40;
          source_sequence = caused_by;
          ingest_time = start_at;
          idempotency_key = event_cycle_started caused_by i;
          payload = started_payload i t c.due_at;
          source_record_id = none;
          caused_by_event_id = some caused_by;
          replay_generation = generation;
        }) in
    update_policy
      (λ p. record p {
        policy_tag = cycle_tag t;
        slow_level = level;
        active_cycle_id = some i;
        no_cycle_reason = none;
        last_processed_event_id = some e;
        state_version = p.state_version + 1;
      })
      db'

unfoldable pub start_cycle : Db → CycleType → ℕ → ℕ → ℕ → ℕ → Option ℕ × Db
start_cycle db t start_at caused_by fixed_sequence generation =
    let (policy, db') = ensure_policy_state db in
    let b = db'.business in
    if is_terminal b.status
    then (none, set_no_cycle db' terminal_status true)
    else if leb 5 policy.v102_operation_count && is_normal_or_slow t
    then (none, set_no_cycle db' operation_limit false)
    else if current_count b == 0 && is_normal t
    then (none, set_no_cycle db' zero_count false)
    else (
      some db'.next_cycle,
      open_cycle db' t start_at (raised_level t policy.slow_level) caused_by fixed_sequence
          generation,
    )

-- The UPDATE of _enter_slow on the cycle's row.
unfoldable pub slow_row : ℕ → Cycle → Cycle
slow_row level c = record c {
  cycle_type = slow;
  slow_level = level;
  due_at = c.start_at + (14 + 7 * level) * day;
  slow_light_count = 0;
  slow_extended = false;
}

-- The cycle's new row comes back beside the tables.
unfoldable pub enter_slow : Db → Cycle → ℕ → ℕ → Cycle × Db
enter_slow db c caused_by at =
    let (policy, db₁) = ensure_policy_state db in
    let level = policy.slow_level + 1 in
    let db₂ = update_cycle c.id (slow_row level) db₁ in
    let (e, _, db₃) = insert_event db₂ (record {
      event_type = slow_entered;
      effective_time = at;
      event_priority = 40;
      source_sequence = caused_by;
      ingest_time = at;
      idempotency_key = event_cycle_slow caused_by c.id;
      payload = slow_payload c.id level (slow_row level c).due_at;
      source_record_id = none;
      caused_by_event_id = some caused_by;
      replay_generation = c.replay_generation;
    }) in
    (
      slow_row level c,
      update_policy
          (λ p. record p {
            policy_tag = slow_tag;
            slow_level = level;
            no_cycle_reason = none;
            last_processed_event_id = some e;
            state_version = p.state_version + 1;
          })
          db₃,
    )

abbrev pub close_row : CycleStatus → String → Cycle → Cycle
close_row status reason c = record c { status = status; closed_reason = some reason }

abbrev pub clear_pointer : Policy → Policy
clear_pointer p = record p { active_cycle_id = none; state_version = p.state_version + 1 }

unfoldable pub cancel_active_cycle : Db → String → Db
cancel_active_cycle db reason =
    let db' : Db = elim (active_cycle db) [
      | none ↦ db
      | some c ↦ update_cycle c.id (close_row cancelled reason) db
    ] in
    update_policy clear_pointer db'

-- The two UPDATE statements of a reduction, made when `applied` is not 0.
unfoldable pub record_reduction : Db → ℕ → Db
unfolding update_policy
record_reduction db applied =
    let b = db.business in
    let db' : Db = record db { business = record b { deduct_count = b.deduct_count + applied } } in
    update_policy
      (λ p. record p {
        v102_operation_count = p.v102_operation_count + 1;
        state_version = p.state_version + 1;
      })
      db'

unfoldable pub reduction_amount : ℕ → ℕ → Policy → ℕ
reduction_amount requested current p =
    if leb requested current && ltb p.v102_operation_count 5 then requested else 0

unfoldable pub apply_reduction : Db → ℕ → Cutoff → ℕ × Db
apply_reduction db requested cut =
    let db₁ = sync_count_state db cut in
    let (policy, db₂) = ensure_policy_state db₁ in
    let applied = reduction_amount requested (current_count db₁.business) policy in
    let db₃ = if applied == 0 then db₂ else record_reduction db₂ applied in
    (applied, sync_count_state db₃ cut)
