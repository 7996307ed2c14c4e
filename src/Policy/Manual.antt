-- ===== src/Policy/Manual.antt =====
-- The administrator's decisions about a stop: start_manual_stop, clear_manual_stop,
-- renew_manual_stop, reject_stop_suggestion and _transfer_waiting_stop_evaluations.
-- The raised exceptions are results; the connection of db.py rolls back what was written before one.
pub mod Keep
pub mod Restart
pub mod Cleared
use Prim.Native.Char.{code}
use qq_violation_bot.Prelude.{
  ℕ, suc, ◌+◌, ◌*◌, Bool, true, false, not, ◌&&◌, ◌||◌, Option, none, some, List, [], ◌∷◌, String,
  select, update, ltb, leb, ◌==◌, if◌then◌else◌,
}
use qq_violation_bot.Policy.Types.{
  Db, Policy, Cycle, CycleType, EventType, Event, Key, Payload, Pending, PolicyOutcome, ActionType,
  Severity, normal, stop, closed, active, no_tag, zero_count, operation_limit, day, stop_suggestion,
  stop_decision, manual_stop_started, manual_stop_cleared, manual_stop_renewed,
  stop_suggestion_rejected, mute_recorded, manual_payload, mute_payload, is_terminal,
  is_last_warning, is_normal, is_stop, is_normal_or_slow, is_pending_decision, is_light, is_severe,
  action_eq,
}
use qq_violation_bot.Policy.Count.{all_records, current_count}
use qq_violation_bot.Policy.Events.{
  NewEvent, insert_event, ensure_policy_state, update_policy, find_pending, resolve_pending_actions,
  policy_scope_under_review,
}
use qq_violation_bot.Policy.Cycles.{
  active_cycle, update_cycle, has_id, set_no_cycle, start_cycle, cancel_active_cycle,
  apply_reduction, close_row,
}
use qq_violation_bot.Policy.Settle.{extended_row}

pub data Error : Type 0 where
  under_review empty_reason stop_not_allowed already_stopped no_due_stop bad_evaluation : Error
  no_suggestion no_next_cycle : Error

pub data Result {ℓ} (A : Type ℓ) : Type ℓ where
  ok : A → Result A
  raise : Error → Result A

-- str.isspace, on which str.strip rests.
abbrev pub is_space : ℕ → Bool
is_space c =
    (leb 9 c && leb c 13)
    || (leb 28 c && leb c 32)
    || c == 0x85
    || c == 0xa0
    || c == 0x1680
    || (leb 0x2000 c && leb c 0x200a)
    || c == 0x2028
    || c == 0x2029
    || c == 0x202f
    || c == 0x205f
    || c == 0x3000

-- `not reason.strip()`
unfoldable pub is_blank : String → Bool
is_blank String.[] = true
is_blank (String.◌∷◌ c s) = is_space (code c) && is_blank s

abbrev pub outcome : ℕ → Bool → PolicyOutcome
outcome e changed = record { event_id = some e; changed = changed; pending_action_id = none }

-- The events of the decisions: priority 30, ingested when they are effective.
unfoldable pub decision_event : EventType → ℕ → ℕ → Key → Payload → Option ℕ → ℕ → NewEvent
decision_event type at sequence key payload caused_by generation = record {
  event_type = type;
  effective_time = at;
  event_priority = 30;
  source_sequence = sequence;
  ingest_time = at;
  idempotency_key = key;
  payload = payload;
  source_record_id = none;
  caused_by_event_id = caused_by;
  replay_generation = generation;
}

-- The last UPDATE of a decision, of which only some statements raise the version.
abbrev pub note_reason : String → ℕ → Policy → Policy
note_reason reason e p = record p { last_reason = some reason; last_processed_event_id = some e }

abbrev pub bump_version : Policy → Policy
bump_version p = record p { state_version = p.state_version + 1 }

-- `replay_generation == 0 and policy_scope_under_review(…)`
abbrev pub blocked : Db → ℕ → Bool
blocked db generation = generation == 0 && policy_scope_under_review db

-- `active and active["cycle_type"] in {"stop", "final_warning"}`
unfoldable pub is_stopped : Option Cycle → Bool
is_stopped none = false
is_stopped (some c) = not (is_normal_or_slow c.cycle_type)

-- What start_manual_stop writes once its event is new.
unfoldable pub begin_stop : Db → ℕ → String → ℕ → ℕ → Db
begin_stop db at reason e generation =
    let db₁ = cancel_active_cycle db "manual_stop_started" in
    let db₂ = resolve_pending_actions db₁ e (action_eq stop_suggestion) in
    update_policy (note_reason reason e) (start_cycle db₂ stop at e 1 generation).1

unfoldable pub start_manual_stop :
    Db → ℕ → String → Key → Option ℕ → ℕ → Result (PolicyOutcome × Db)
start_manual_stop db at reason key caused_by generation =
    if blocked db generation
    then raise under_review
    else if is_blank reason
    then raise empty_reason
    else let (_, db₁) = ensure_policy_state db in
      if is_terminal db₁.business.status || is_last_warning db₁.business.status
      then raise stop_not_allowed
      else if is_stopped (active_cycle db₁)
      then raise already_stopped
      else let (e, created, db₂) = insert_event db₁ (
          decision_event manual_stop_started at 0 key (manual_payload reason none) caused_by
            generation) in
        if created
        then ok (outcome e true, begin_stop db₂ at reason e generation)
        else ok (outcome e false, db₂)

-- The cycle that clear_manual_stop and renew_manual_stop decide about.
unfoldable pub due_stop : Db → Option Cycle
due_stop db = elim (active_cycle db) [
  | none ↦ none
  | some c ↦ if is_stop c.cycle_type && is_pending_decision c.status then some c else none
]

-- At most one light and no severe violation in the cycle.
unfoldable pub is_good_stop : Cycle → Bool
is_good_stop c = leb c.light_count 1 && c.severe_count == 0

abbrev pub cleared_policy : String → ℕ → Policy → Policy
cleared_policy reason e p = record p {
  policy_tag = no_tag;
  active_cycle_id = none;
  last_reason = some reason;
  last_processed_event_id = some e;
  state_version = p.state_version + 1;
}

abbrev pub decided_row : ℕ → String → Cycle → Cycle
decided_row e why c = record c {
  status = closed;
  decision_event_id = some e;
  closed_reason = some why;
}

-- What follows a cleared stop.
unfoldable pub restart_normal : Db → ℕ → ℕ → ℕ → Db
restart_normal db at e generation =
    let b = db.business in
    let (policy, db') = ensure_policy_state db in
    if current_count b == 0
    then set_no_cycle db' zero_count false
    else if leb 5 policy.v102_operation_count
    then set_no_cycle db' operation_limit false
    else (start_cycle db' normal at e 0 generation).1

unfoldable pub clear_stop : Db → Cycle → ℕ → String → ℕ → ℕ → Db
clear_stop db c at reason e generation =
    let (_, db₁) = apply_reduction db 1 all_records in
    let db₂ = update_cycle c.id (decided_row e "manual_clear") db₁ in
    let db₃ = resolve_pending_actions db₂ e (action_eq stop_decision) in
    restart_normal (update_policy (cleared_policy reason e) db₃) at e generation

unfoldable pub clear_manual_stop :
    Db → ℕ → String → Key → Option ℕ → ℕ → Result (PolicyOutcome × Db)
clear_manual_stop db at reason key caused_by generation =
    if blocked db generation
    then raise under_review
    else if is_blank reason
    then raise empty_reason
    else elim (due_stop db) [
      | none ↦ raise no_due_stop
      | some c ↦
          if is_good_stop c
          then (let (e, created, db₁) = insert_event db (
                decision_event manual_stop_cleared at 0 key (manual_payload reason (some c.id))
                  caused_by generation) in
              if created
              then ok (outcome e true, clear_stop db₁ c at reason e generation)
              else ok (outcome e false, db₁))
          else raise bad_evaluation
    ]

-- _set_event_evaluation_owner on a mute's payload: the owner, or the cycle that it waits for.
abbrev pub own_evaluation : ℕ → Payload → Payload
own_evaluation i (mute_payload s seconds owner after) = mute_payload s seconds (some i) none
own_evaluation i payload = payload

abbrev pub wait_evaluation : ℕ → Payload → Payload
wait_evaluation i (mute_payload s seconds owner after) = mute_payload s seconds none (some i)
wait_evaluation i payload = payload

-- The severity of an effective mute of the generation that waits for the cycle.
unfoldable pub waiting_severity : ℕ → ℕ → Event → Option Severity
waiting_severity generation i e = elim e.event_type [
  | mute_recorded ↦ elim e.payload [
    | mute_payload s seconds owner after ↦ elim after [
      | none ↦ none
      | some j ↦
          if e.is_effective && (e.replay_generation == generation && j == i) then some s else none
    ]
    | _ ↦ none
  ]
  | _ ↦ none
]

unfoldable pub transfer_event : ℕ → ℕ → Cycle → Event → Event
unfolding waiting_severity
transfer_event generation i to e = elim (waiting_severity generation i e) [
  | none ↦ e
  | some s ↦
      if leb e.effective_time to.due_at
      then record e { payload = own_evaluation to.id e.payload }
      else record e { payload = wait_evaluation to.id e.payload }
]

-- The numbers `light_count` and `severe_count` of the loop.
unfoldable pub count_transferred : (Severity → Bool) → ℕ → ℕ → Cycle → List Event → ℕ
unfolding waiting_severity
count_transferred which generation i to [] = 0
count_transferred which generation i to (e ∷ es) =
    let rest = count_transferred which generation i to es in
    elim (waiting_severity generation i e) [
      | none ↦ rest
      | some s ↦ if leb e.effective_time to.due_at && which s then suc rest else rest
    ]

unfoldable pub transfer_waiting : Db → Cycle → Cycle → Db
unfolding transfer_event count_transferred
transfer_waiting db from to =
    let g = from.replay_generation in
    let light = count_transferred is_light g from.id to db.events in
    let severe = count_transferred is_severe g from.id to db.events in
    update_cycle to.id
      (λ c. record c {
        light_count = c.light_count + light;
        severe_count = c.severe_count + severe;
      })
      (record db { events = update (λ _. true) (transfer_event g from.id to) db.events })

abbrev pub drop_pointer : Policy → Policy
drop_pointer p = record p { active_cycle_id = none }

-- From the new event of renew_manual_stop on: the stop goes on from its due time.
unfoldable pub renew_stop : Db → Cycle → String → ℕ → ℕ → Result Db
renew_stop db c reason e generation =
    let db₁ = update_cycle c.id (decided_row e "renewed") db in
    let db₂ = resolve_pending_actions db₁ e (action_eq stop_decision) in
    let (new, db₃) =
      start_cycle (update_policy drop_pointer db₂) stop c.due_at e (c.fixed_sequence + 1)
        generation in
    elim new [
      | none ↦ raise no_next_cycle
      | some i ↦ elim (select (has_id i) db₃.cycles) [
        | none ↦ raise no_next_cycle
        | some to ↦ ok (update_policy (note_reason reason e) (transfer_waiting db₃ c to))
      ]
    ]

-- The exception of renew_stop goes through.
unfoldable pub after_renewal : ℕ → Result Db → Result (PolicyOutcome × Db)
after_renewal e (ok db) = ok (outcome e true, db)
after_renewal e (raise err) = raise err

unfoldable pub renew_manual_stop :
    Db → ℕ → String → Key → Option ℕ → ℕ → Result (PolicyOutcome × Db)
renew_manual_stop db at reason key caused_by generation =
    if blocked db generation
    then raise under_review
    else if is_blank reason
    then raise empty_reason
    else elim (due_stop db) [
      | none ↦ raise no_due_stop
      | some c ↦
          let (e, created, db₁) = insert_event db (
            decision_event manual_stop_renewed at 0 key (manual_payload reason (some c.id))
              caused_by generation) in
          if created
          then after_renewal e (renew_stop db₁ c reason e generation)
          else ok (outcome e false, db₁)
    ]

-- A rejected suggestion that was due: a normal cycle is closed and followed by another, a slow one
-- is extended by seven days and active again.
unfoldable pub settle_rejection : Db → Cycle → ℕ → ℕ → Db
settle_rejection db c e generation =
    if is_pending_decision c.status
    then if is_normal c.cycle_type
      then (start_cycle
          (update_policy (λ p. record p { active_cycle_id = none; policy_tag = no_tag })
            (update_cycle c.id (close_row closed "suggestion_rejected") db))
          normal c.due_at e 0 generation).1
      else update_cycle c.id (λ d. record (extended_row c.due_at d) { status = active }) db
    else db

-- The part of reject_stop_suggestion from its event on.
unfoldable pub reject_known :
    Db → Cycle → Pending → ℕ → String → Key → Option ℕ → ℕ → PolicyOutcome × Db
reject_known db c p at reason key caused_by generation =
    let by : Option ℕ = elim caused_by [ none ↦ some p.caused_by_event_id | some i ↦ some i ] in
    let (e, created, db₁) = insert_event db (
      decision_event stop_suggestion_rejected at p.id key (manual_payload reason (some c.id)) by
        generation) in
    let db₂ =
      update_cycle c.id (λ d. record d { suggestion_rejected = true; decision_event_id = some e })
        (resolve_pending_actions db₁ e (action_eq stop_suggestion)) in
    if created
    then (
      outcome e true,
      update_policy (λ q. bump_version (note_reason reason e q))
          (settle_rejection db₂ c e generation),
    )
    else (outcome e false, db₁)

unfoldable pub reject_stop_suggestion :
    Db → ℕ → String → Key → Option ℕ → ℕ → Result (PolicyOutcome × Db)
reject_stop_suggestion db at reason key caused_by generation =
    if blocked db generation
    then raise under_review
    else if is_blank reason
    then raise empty_reason
    else elim (active_cycle db) [
      | none ↦ raise no_suggestion
      | some c ↦ elim (find_pending db (action_eq stop_suggestion)) [
        | none ↦ raise no_suggestion
        | some p ↦
            if is_normal_or_slow c.cycle_type
            then ok (reject_known db c p at reason key caused_by generation)
            else raise no_suggestion
      ]
    ]
