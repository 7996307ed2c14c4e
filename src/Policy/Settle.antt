-- ===== src/Policy/Settle.antt =====
-- The settlement of due cycles: _mark_stop_due, _settle_final_warning, _settle_cycle,
-- settle_due_cycles (of one scope).
pub mod Step
pub mod Total
use qq_violation_bot.Prelude.{
  ℕ, zero, suc, ◌+◌, ◌*◌, Bool, true, false, ◌&&◌, ◌||◌, Option, none, some, List, [], ◌∷◌, not,
  select, update, ltb, leb, ◌==◌, if◌then◌else◌,
}
use qq_violation_bot.Policy.Types.{
  Db, Policy, Cycle, EventType, Key, Payload, Pending, ActionType, normal, slow, stop,
  final_warning, closed, pending_decision, consulted, no_tag, zero_count, operation_limit, day,
  duration_review, stop_suggestion, stop_decision, remove_member, final_warning_recovery_review,
  stop_due_for_decision, final_warning_recovered, rejected_cycle_closed, cycle_bad_at_due,
  cycle_settled, cycle_stop_due, cycle_final_recovery, cycle_rejected_close, cycle_bad,
  cycle_settlement, cycle_payload, settlement_payload, recovery_payload, is_normal, is_active,
  action_eq,
}
use qq_violation_bot.Policy.Count.{through, sync_count_state, current_count}
use qq_violation_bot.Policy.Events.{
  NewEvent, insert_event, ensure_policy_state, update_policy, find_pending, create_pending_action,
  policy_scope_under_review,
}
use qq_violation_bot.Policy.Cycles.{
  has_id, update_cycle, set_no_cycle, start_cycle, apply_reduction, record_reduction,
  reduction_amount,
}

-- The events of a settlement: effective when the cycle is due, at priority 50, in the cycle's name.
unfoldable pub due_event : Cycle → EventType → Key → Payload → ℕ → ℕ → NewEvent
due_event c type key payload as_of generation = record {
  event_type = type;
  effective_time = c.due_at;
  event_priority = 50;
  source_sequence = c.id;
  ingest_time = as_of;
  idempotency_key = key;
  payload = payload;
  source_record_id = none;
  caused_by_event_id = none;
  replay_generation = generation;
}

abbrev pub await_decision : Cycle → Cycle
await_decision c = record c { status = pending_decision }

unfoldable pub set_pending_due : ℕ → ℕ → Db → Db
set_pending_due i due db = record db {
  pendings =
      update (λ (p : Pending). p.id == i) (λ (p : Pending). record p { due_at = some due })
        db.pendings;
}

-- Each settlement returns whether it changed something, and the tables.
unfoldable pub mark_stop_due : Db → Cycle → ℕ → Bool × Db
mark_stop_due db c as_of =
    let (e, created, db₁) = insert_event db (
      due_event c stop_due_for_decision (cycle_stop_due c.id c.due_at) (cycle_payload c.id) as_of
        0) in
    if created
    then (let (p, db₂) = create_pending_action db₁ stop_decision "普通减停周期已到期，请管理决定清除或续期" e in
        (true, update_cycle c.id await_decision (set_pending_due p c.due_at db₂)))
    else (false, db₁)

-- After a settlement: no cycle at count zero or at the limit, else a normal cycle from the due time.
unfoldable pub continue_normal : Db → Cycle → ℕ → Db
continue_normal db c e =
    let b = db.business in
    let (policy, db') = ensure_policy_state db in
    if current_count b == 0
    then set_no_cycle db' zero_count false
    else if leb 5 policy.v102_operation_count
    then set_no_cycle db' operation_limit false
    else (start_cycle db' normal c.due_at e 0 c.replay_generation).1

abbrev pub settled_policy : ℕ → Policy → Policy
settled_policy e p = record p {
  policy_tag = no_tag;
  active_cycle_id = none;
  pending_action_type = none;
  last_processed_event_id = some e;
  state_version = p.state_version + 1;
}

abbrev pub recovered_row : ℕ → Cycle → Cycle
recovered_row e c = record c {
  status = closed;
  settlement_event_id = some e;
  closed_reason = some "final_warning_recovered";
}

unfoldable pub set_payload : ℕ → Payload → Db → Db
set_payload e payload db = record db {
  events = update (λ r. r.id == e) (λ r. record r { payload = payload }) db.events;
}

-- The part of _settle_final_warning from the inserted event on.
unfoldable pub recover_final_warning : Db → Cycle → ℕ → ℕ → ℕ → Db
recover_final_warning db c as_of current_before e =
    let b = db.business in
    let (applied, db₁) =
      apply_reduction (record db { business = record b { status = consulted } }) 2
        (through c.due_at) in
    let db₂ = set_payload e (recovery_payload c.id 2 (some applied) current_before) db₁ in
    let db₃ = update_policy (settled_policy e) (update_cycle c.id (recovered_row e) db₂) in
    let db₄ = continue_normal db₃ c e in
    if applied == 0 && ltb current_before 2
    then (create_pending_action db₄ final_warning_recovery_review "最后警告恢复时当前次数不足2，已按规则执行减数0，请核对数据"
        e).1
    else db₄

unfoldable pub settle_final_warning : Db → Cycle → ℕ → Bool × Db
settle_final_warning db c as_of = elim (find_pending db (action_eq remove_member)) [
  | some _ ↦ (false, update_cycle c.id await_decision db)
  | none ↦
      let db₁ = sync_count_state db (through c.due_at) in
      let current_before = current_count db₁.business in
      let (e, created, db₂) = insert_event db₁ (
        due_event c final_warning_recovered (cycle_final_recovery c.id c.due_at)
          (recovery_payload c.id 2 none current_before) as_of 0) in
      if created then (true, recover_final_warning db₂ c as_of current_before e) else (false, db₂)
]

abbrev pub rejected_row : ℕ → Cycle → Cycle
rejected_row e c = record c {
  status = closed;
  settlement_event_id = some e;
  closed_reason = some "suggestion_rejected";
}

-- A rejected slow cycle is extended by seven days with its counts reset.
abbrev pub extended_row : ℕ → Cycle → Cycle
extended_row due c = record c {
  due_at = due + 7 * day;
  light_count = 0;
  normal_light_count = 0;
  slow_light_count = 0;
  severe_count = 0;
  slow_extended = false;
  suggestion_rejected = false;
}

-- The branch `suggestion_rejected` of _settle_cycle.
unfoldable pub settle_rejected : Db → Cycle → ℕ → Bool × Db
settle_rejected db c as_of =
    let (e, created, db₁) = insert_event db (
      due_event c rejected_cycle_closed (cycle_rejected_close c.id c.due_at) (cycle_payload c.id)
        as_of c.replay_generation) in
    if created
    then (
      true,
      (if is_normal c.cycle_type
          then (start_cycle
              (update_policy
                (λ p. record p {
                  policy_tag = no_tag;
                  active_cycle_id = none;
                  last_processed_event_id = some e;
                })
                (update_cycle c.id (rejected_row e) db₁))
              normal c.due_at e 0 c.replay_generation).1
          else update_cycle c.id (extended_row c.due_at) db₁),
    )
    else (false, db₁)

-- The evaluation of a cycle when it is due.
unfoldable pub is_good : Cycle → Bool
is_good c =
    if is_normal c.cycle_type
    then leb c.light_count 1 && c.severe_count == 0
    else leb c.slow_light_count 2 && c.severe_count == 0

unfoldable pub settle_bad : Db → Cycle → ℕ → Bool × Db
settle_bad db c as_of =
    let (e, _, db₁) =
      insert_event db
        (due_event c cycle_bad_at_due (cycle_bad c.id c.due_at) (cycle_payload c.id) as_of 0) in
    let (_, db₂) = create_pending_action db₁ stop_suggestion "周期到期评价不良，建议人工减停" e in
    (false, update_cycle c.id await_decision db₂)

abbrev pub settled_row : ℕ → Cycle → Cycle
settled_row e c = record c {
  status = closed;
  settlement_event_id = some e;
  closed_reason = some "settled";
}

-- The part of _settle_cycle from the inserted `cycle_settled` event on.
unfoldable pub finish_good : Db → Cycle → ℕ → ℕ → Db
finish_good db c applied e =
    let db₁ = if applied == 0 then db else record_reduction db applied in
    let db₂ = update_policy (settled_policy e) (update_cycle c.id (settled_row e) db₁) in
    continue_normal (sync_count_state db₂ (through c.due_at)) c e

unfoldable pub settle_good : Db → Cycle → ℕ → Bool × Db
settle_good db c as_of =
    let db₁ = sync_count_state db (through c.due_at) in
    let (policy, db₂) = ensure_policy_state db₁ in
    let applied = reduction_amount 1 (current_count db₁.business) policy in
    let (e, created, db₃) = insert_event db₂ (
      due_event c cycle_settled (cycle_settlement c.id c.due_at c.replay_generation)
        (settlement_payload c.id 1 applied) as_of c.replay_generation) in
    if created then (true, finish_good db₃ c applied e) else (false, db₃)

abbrev pub blocks_settlement : ActionType → Bool
blocks_settlement a = action_eq a stop_suggestion || action_eq a duration_review

unfoldable pub settle_cycle : Db → Cycle → ℕ → Bool × Db
settle_cycle db c as_of = elim (find_pending db blocks_settlement) [
  | some _ ↦ (false, update_cycle c.id await_decision db)
  | none ↦
      if c.suggestion_rejected
      then settle_rejected db c as_of
      else if is_good c
      then settle_good db c as_of
      else settle_bad db c as_of
]

unfoldable pub is_due : ℕ → Cycle → Bool
is_due now c = is_active c.status && leb c.due_at now

-- ORDER BY due_at, id LIMIT 1: the first of the rows with the least due time.
unfoldable pub first_due : ℕ → List Cycle → Option Cycle
unfolding is_due
first_due now [] = none
first_due now (c ∷ cs) =
    let rest = first_due now cs in
    if is_due now c
    then elim rest [ none ↦ some c | some d ↦ if ltb d.due_at c.due_at then some d else some c ]
    else rest

-- The SELECT of the loop: nothing is due in a scope that is under review.
unfoldable pub next_due : Db → ℕ → Option Cycle
unfolding policy_scope_under_review first_due
next_due db now = if policy_scope_under_review db then none else first_due now db.cycles

-- The dispatch of the loop's body.
unfoldable pub settle_one : Db → Cycle → ℕ → Bool × Db
settle_one db c now = elim c.cycle_type [
  | stop ↦ mark_stop_due db c now
  | final_warning ↦ settle_final_warning db c now
  | normal ↦ settle_cycle db c now
  | slow ↦ settle_cycle db c now
]

-- SELECT status FROM v102_policy_cycles WHERE id=?, `current["status"] != "active"`.
unfoldable pub left_active : Db → ℕ → Bool
left_active db i = elim (select (has_id i) db.cycles) [
  | none ↦ false
  | some c ↦ not (is_active c.status)
]

-- `while True`, on fuel: `none` means that the fuel ran out.
unfoldable pub settle_loop : ℕ → Db → ℕ → ℕ → Option (ℕ × Db)
settle_loop zero db now settled = none
settle_loop (suc fuel) db now settled = elim (next_due db now) [
  | none ↦ some (settled, db)
  | some c ↦
      let (changed, db') = settle_one db c now in
      let again = settle_loop fuel db' now (settled + 1) in
      let go_on = settle_loop fuel db' now settled in
      if changed then again else if left_active db' c.id then go_on else some (settled, db')
]

-- Each round moves the least due time forward by a second at least, so `now + 2` rounds are enough
-- (proved in Settle/Total).
unfoldable pub settle_due_cycles : Db → ℕ → Option (ℕ × Db)
settle_due_cycles db now = settle_loop (suc (suc now)) db now 0
