-- ===== src/Policy/Records.antt =====
-- process_violation_record and _apply_old_backfill_count_effect of deduction_policy.py. The replay of
-- the scope is an argument, and the reason of a replay review is its text without the checkpoint's id.
pub mod Keep
pub mod Apply
pub mod Answers
use qq_violation_bot.Prelude.{
  ℕ, suc, ◌+◌, ◌-◌, ◌*◌, Bool, true, false, not, ◌&&◌, ◌||◌, Option, none, some, List, [], ◌∷◌,
  String, Result, ok, raise, select, exists, take, ltb, leb, ◌==◌, if◌then◌else◌,
}
use qq_violation_bot.Policy.Types.{
  Db, Policy, Cycle, CycleType, Status, ViolationRecord, Severity, PolicyOutcome, none_severity,
  light, severe, unknown, normal, slow, stop, final_warning, cancelled, pending_decision,
  terminal_status, operation_limit, mute_recorded, mute_duration_unknown, slow_extended_event,
  mute_payload, extended_payload, record_applied, event_cycle_extended, event_replay_review,
  duration_review, stop_suggestion, remove_member, replay_review, day, is_terminal, is_last_warning,
  is_consulted, is_normal, is_slow, is_stop, is_normal_or_slow, is_pending_decision, is_severe,
  is_light, EventType,
}
use qq_violation_bot.Policy.Count.{
  Cutoff, all_records, through_record, sync_count_state, current_count, is_effective,
}
use qq_violation_bot.Policy.Events.{
  NewEvent, insert_event, ensure_policy_state, update_policy, create_pending_action,
  policy_scope_under_review,
}
use qq_violation_bot.Policy.Cycles.{
  active_cycle, update_cycle, set_no_cycle, start_cycle, enter_slow, has_id,
}
use qq_violation_bot.Policy.Settle.{settle_due_cycles, await_decision}
use qq_violation_bot.Policy.Manual.{outcome, own_evaluation, wait_evaluation}
use qq_violation_bot.Policy.Review.{
  InputError, missing_record, future_time, out_of_fuel, replay_failed, has_later_effective_event,
  is_future, record_policy_review, before_checkpoint, set_evaluation,
}

-- "slow" if current >= 3 or status == "已质询" else "normal"
abbrev pub first_type : ℕ → Status → CycleType
first_type current status = if leb 3 current || is_consulted status then slow else normal

abbrev pub backfilled : ℕ → Policy → Policy
backfilled e p = record p {
  last_processed_event_id = some e;
  last_reason = some "old_backfill_count_only";
  state_version = p.state_version + 1;
}

abbrev pub backfill_cycle : Db → ℕ → ℕ → Db
backfill_cycle db e at = elim (active_cycle db) [
  | none ↦ (start_cycle db (first_type (current_count db.business) db.business.status) at e 0 0).1
  | some c ↦
      if is_normal c.cycle_type && leb 3 (current_count db.business)
      then (enter_slow db c e at).1
      else db
]

unfoldable pub apply_old_backfill : Db → ℕ → ℕ → PolicyOutcome × Db
apply_old_backfill db e at =
    let (policy, db₁) = ensure_policy_state db in
    if is_terminal db₁.business.status
    then (outcome e true, set_no_cycle db₁ terminal_status true)
    else if leb 5 policy.v102_operation_count
    then (outcome e true, set_no_cycle db₁ operation_limit false)
    else (outcome e true, update_policy (backfilled e) (backfill_cycle db₁ e at))

abbrev pub one_if : Bool → ℕ
one_if b = if b then 1 else 0

abbrev pub with_pending : ℕ → ℕ → PolicyOutcome
with_pending e p = record { event_id = some e; changed = true; pending_action_id = some p }

-- The UPDATE of a stop's or a final warning's counts.
abbrev pub count_fixed : Severity → Cycle → Cycle
count_fixed s c = record c {
  light_count = c.light_count + one_if (is_light s);
  severe_count = c.severe_count + one_if (is_severe s);
}

-- A stop that is due with a bad record: a later mute waits for the next one.
abbrev pub is_bad_due_stop : Cycle → Bool
is_bad_due_stop c =
    is_stop c.cycle_type
    && (is_pending_decision c.status && (ltb 1 c.light_count || ltb 0 c.severe_count))

unfoldable pub mute_fixed : Db → Cycle → Severity → ℕ → PolicyOutcome × Db
mute_fixed db c s e =
    if is_bad_due_stop c
    then (outcome e true, set_evaluation (wait_evaluation c.id) e db)
    else let db₁ = set_evaluation (own_evaluation c.id) e (update_cycle c.id (count_fixed s) db) in
      if is_stop c.cycle_type
      then (outcome e true, db₁)
      else let (p, db₂) = create_pending_action db₁ remove_member "最后警告期间新增禁言，请管理判断是否移出" e in
        (with_pending e p, update_cycle c.id await_decision db₂)

-- The UPDATE of a normal or slow cycle's counts.
abbrev pub count_row : Severity → Cycle → Cycle
count_row s c = record c {
  light_count = c.light_count + one_if (is_light s);
  normal_light_count = c.normal_light_count + one_if (is_light s);
  slow_light_count = c.slow_light_count + one_if (is_slow c.cycle_type && is_light s);
  severe_count = c.severe_count + one_if (is_severe s);
}

abbrev pub extend_row : Cycle → Cycle
extend_row c = record c { due_at = c.due_at + 7 * day; slow_extended = true }

-- The second light violation of a slow cycle, which is extended once.
abbrev pub is_extended_now : Cycle → Bool
is_extended_now c = is_slow c.cycle_type && (c.slow_light_count == 2 && not c.slow_extended)

unfoldable pub extend_slow : Db → Cycle → ℕ → ℕ → ℕ → ℕ → Cycle × Db
extend_slow db c e at ingested generation =
    let (_, _, db₁) = insert_event (update_cycle c.id extend_row db) (record {
      event_type = slow_extended_event;
      effective_time = at;
      event_priority = 40;
      source_sequence = e;
      ingest_time = ingested;
      idempotency_key = event_cycle_extended e c.id;
      payload = extended_payload c.id (c.due_at + 7 * day);
      source_record_id = none;
      caused_by_event_id = some e;
      replay_generation = generation;
    }) in
    if is_extended_now c then (extend_row c, db₁) else (c, db)

abbrev pub should_suggest : Severity → Cycle → Bool
should_suggest s c = is_severe s || leb 3 c.normal_light_count || leb 3 c.slow_light_count

abbrev pub suggestion_reason : Severity → String
suggestion_reason s = if is_severe s then "出现严重违规，建议人工减停" else "周期内轻度违规达到建议减停条件"

abbrev pub suggest : Bool → Severity → ℕ → Db → PolicyOutcome × Db
suggest test s e db =
    let (p, db') = create_pending_action db stop_suggestion (suggestion_reason s) e in
    if test then (with_pending e p, db') else (outcome e true, db)

unfoldable pub mute_counted : Db → Cycle → Severity → ℕ → ℕ → ℕ → ℕ → ℕ → PolicyOutcome × Db
mute_counted db c s current e at ingested generation =
    let c₁ = count_row s c in
    let db₁ = update_cycle c.id (count_row s) db in
    let slowed = enter_slow db₁ c₁ e at in
    let (c₂, db₂) = (if is_normal c₁.cycle_type && leb 3 current then slowed else (c₁, db₁)) in
    let (c₃, db₃) = extend_slow db₂ c₂ e at ingested generation in
    suggest (should_suggest s c₃) s e db₃

-- The start of a final warning's cycle that is missing.
abbrev pub warning_start : Db → Policy → ℕ → ℕ
warning_start db p at = elim db.business.last_final_warning_time [
  | some t ↦ t
  | none ↦ elim p.baseline_last_final_warning_time [ some t ↦ t | none ↦ at ]
]

abbrev pub with_warning : Db → Policy → ℕ → ℕ → ℕ → Db
with_warning db p at e generation = elim (active_cycle db) [
  | some c ↦ db
  | none ↦
      if is_last_warning db.business.status
      then (start_cycle db final_warning (warning_start db p at) e 0 generation).1
      else db
]

-- What follows when the scope has no cycle.
unfoldable pub mute_first : Db → Severity → ℕ → ℕ → ℕ → PolicyOutcome × Db
mute_first db s e at generation =
    let t = first_type (current_count db.business) db.business.status in
    suggest (is_severe s) s e (start_cycle db t at e 0 generation).1

-- The part of process_violation_record from its last reading of the two state rows on.
unfoldable pub apply_mute : Db → Severity → ℕ → ℕ → ℕ → ℕ → PolicyOutcome × Db
apply_mute db s e at ingested generation =
    let (policy, db₁) = ensure_policy_state db in
    let db₂ = with_warning db₁ policy at e generation in
    if is_terminal db₁.business.status
    then (outcome e true, set_no_cycle db₁ terminal_status true)
    else elim (active_cycle db₂) [
      | none ↦
          if leb 5 policy.v102_operation_count
          then (outcome e true, set_no_cycle db₂ operation_limit false)
          else mute_first db₂ s e at generation
      | some c ↦
          if not (is_normal_or_slow c.cycle_type)
          then mute_fixed db₂ c s e
          else if leb 5 policy.v102_operation_count
          then (outcome e true, set_no_cycle db₂ operation_limit false)
          else mute_counted db₂ c s (current_count db₁.business) e at ingested generation
    ]

-- ORDER BY start_at DESC, id DESC
abbrev pub starts_later : Cycle → Cycle → Bool
starts_later c d = ltb d.start_at c.start_at || (d.start_at == c.start_at && ltb d.id c.id)

abbrev pub insert_latest : Cycle → List Cycle → List Cycle
insert_latest c [] = c ∷ []
insert_latest c (d ∷ ds) = if starts_later c d then c ∷ d ∷ ds else d ∷ insert_latest c ds

abbrev pub is_cancelled : Cycle → Bool
is_cancelled c = elim c.status [ cancelled ↦ true | _ ↦ false ]

abbrev pub latest_first : List Cycle → List Cycle
latest_first [] = []
latest_first (c ∷ cs) =
    if is_cancelled c then latest_first cs else insert_latest c (latest_first cs)

abbrev pub recent_cycles : Db → List Cycle
recent_cycles db = take 2 (latest_first db.cycles)

abbrev pub is_empty : List Cycle → Bool
is_empty [] = true
is_empty (c ∷ cs) = false

abbrev pub is_backfill : Db → ℕ → ℕ → Bool
is_backfill db generation at =
    not (generation == 0) && elim (active_cycle db) [ none ↦ false | some c ↦ ltb at c.start_at ]

abbrev pub is_late : Db → ViolationRecord → ℕ → ℕ → ℕ → Bool
is_late db r e ingested generation =
    generation == 0
    && (ltb r.violation_time ingested && has_later_effective_event db r.violation_time 10 r.id e)

abbrev pub record_type : Severity → EventType
record_type unknown = mute_duration_unknown
record_type _ = mute_recorded

abbrev pub record_cutoff : ViolationRecord → ℕ → Cutoff
record_cutoff r generation =
    if generation == 0 then all_records else through_record r.violation_time r.id

abbrev pub is_none_severity : Severity → Bool
is_none_severity none_severity = true
is_none_severity _ = false

abbrev pub is_unknown : Severity → Bool
is_unknown unknown = true
is_unknown _ = false

abbrev pub nothing : PolicyOutcome
nothing = record { event_id = none; changed = false; pending_action_id = none }

abbrev pub record_event : ViolationRecord → ℕ → ℕ → Option ℕ → NewEvent
record_event r ingested generation caused_by = record {
  event_type = record_type r.severity;
  effective_time = r.violation_time;
  event_priority = 10;
  source_sequence = r.id;
  ingest_time = ingested;
  idempotency_key = record_applied r.id generation;
  payload = mute_payload r.severity r.mute_seconds none none;
  source_record_id = some r.id;
  caused_by_event_id = caused_by;
  replay_generation = generation;
}

-- `replay db trigger as_of` stands for replay_member_group.
module _ (replay : Db → ℕ → ℕ → Result InputError Db) where
  abbrev pub replayed : ℕ → Result InputError Db → Result InputError (PolicyOutcome × Db)
  replayed e (ok db) = ok (outcome e true, db)
  replayed e (raise err) = raise err

  -- The part after the settlement and the synchronised counts.
  unfoldable pub place_record :
      Db → ViolationRecord → ℕ → ℕ → ℕ → Result InputError (PolicyOutcome × Db)
  place_record db r e ingested generation =
      let at = r.violation_time in
      let recent = recent_cycles db in
      let again = replayed e (replay db e ingested) in
      let (p, db₁) = create_pending_action db duration_review "禁言时长无法确定，请撤回后按明确时长重新记录" e in
      if is_unknown r.severity
      then ok (with_pending e p, db₁)
      else if is_backfill db generation at
      then ok (apply_old_backfill db e ingested)
      else if is_late db r e ingested generation
      then (if exists (λ (c : Cycle). leb c.start_at at) recent
          then again
          else if is_empty recent
          then ok (apply_mute db r.severity e at ingested generation)
          else ok (apply_old_backfill db e ingested))
      else ok (apply_mute db r.severity e at ingested generation)

  abbrev pub settled_record :
      Option (ℕ × Db) → ViolationRecord → ℕ → ℕ → ℕ → Result InputError (PolicyOutcome × Db)
  settled_record none r e ingested generation = raise out_of_fuel
  settled_record (some (_, db)) r e ingested generation =
      place_record (sync_count_state db (record_cutoff r generation)) r e ingested generation

  -- The part from the new event on.
  unfoldable pub new_record :
      Db → ViolationRecord → ℕ → ℕ → ℕ → Result InputError (PolicyOutcome × Db)
  new_record db r e ingested generation =
      let (_, db₁) = ensure_policy_state db in
      if before_checkpoint db₁ generation r.violation_time
      then ok (
          record_policy_review db₁ (some r.id) (event_replay_review e) ingested "新证据早于已确认复核事件"
            replay_review)
      else settled_record (settle_due_cycles db₁ (r.violation_time - 1)) r e ingested generation

  unfoldable pub process_violation_record :
      Db → ℕ → ℕ → ℕ → Option ℕ → Result InputError (PolicyOutcome × Db)
  process_violation_record db i ingested generation caused_by =
      elim (select (λ (r : ViolationRecord). r.id == i) db.records) [
        | none ↦ raise missing_record
        | some r ↦
            let (e, created, db₁) =
              insert_event db (record_event r ingested generation caused_by) in
            if not (is_effective r) || is_none_severity r.severity
            then ok (nothing, db)
            else if generation == 0 && policy_scope_under_review db
            then ok (nothing, db)
            else if is_future r.violation_time ingested
            then raise future_time
            else if created
            then new_record db₁ r e ingested generation
            else ok (outcome e false, db₁)
      ]
