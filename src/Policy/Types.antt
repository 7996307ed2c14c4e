-- ===== src/Policy/Types.antt =====
-- The tables of plugins/violation_record/policy_schema.py and db.py, restricted to the rows of one
-- (member_id, group_area) scope, and the enumerations that deduction_policy.py stores in them.
-- Times are seconds: the texts "YYYY-MM-DD HH:MM:SS" that the program stores order as the times do.
use qq_violation_bot.Prelude.{ℕ, ◌==◌, Bool, true, false, Option, List, ℤ, String}

pub data Severity : Type 0 where
  none_severity light severe unknown : Severity

-- member_group_states.status, the six texts of ALL_STATUSES.
pub data Status : Type 0 where
  normal_status consulted last_warning left removed blacklisted : Status

pub data CycleType : Type 0 where
  normal slow stop final_warning : CycleType

pub data CycleStatus : Type 0 where
  active pending_decision closed cancelled : CycleStatus

pub data PolicyTag : Type 0 where
  no_tag slow_tag stop_tag : PolicyTag

pub data NoCycleReason : Type 0 where
  zero_count operation_limit terminal_status : NoCycleReason

pub data ActionType : Type 0 where
  input_review replay_review duration_review stop_suggestion stop_decision : ActionType
  remove_member final_warning_recovery_review : ActionType

pub data PendingStatus : Type 0 where
  pending resolved cancelled_action : PendingStatus

pub data EventType : Type 0 where
  mute_recorded mute_duration_unknown status_changed cycle_started slow_entered : EventType
  slow_extended_event manual_stop_started manual_stop_cleared manual_stop_renewed : EventType
  stop_suggestion_rejected stop_due_for_decision final_warning_recovered : EventType
  rejected_cycle_closed cycle_bad_at_due cycle_settled policy_review_required : EventType
  policy_review_resolved baseline_migrated record_withdrawn : EventType
  historical_final_warning_violation_detected : EventType

-- One constructor for each f-string that builds an idempotency key; `external` is a caller's key.
pub data Key : Type 0 where
  external : String → Key
  record_applied : ℕ → ℕ → Key
  event_cycle_started event_cycle_slow event_cycle_extended : ℕ → ℕ → Key
  event_pending : ℕ → ActionType → Key
  event_replay_review : ℕ → Key
  cycle_stop_due cycle_final_recovery cycle_rejected_close cycle_bad : ℕ → ℕ → Key
  cycle_settlement : ℕ → ℕ → ℕ → Key

-- violation_records; `severity` and `mute_seconds` are what classify_severity and
-- parse_mute_seconds read from the action text.
pub record ViolationRecord : Type 0 where
  pub id : ℕ
  pub violation_time : ℕ
  pub severity : Severity
  pub mute_seconds : Option ℕ
  pub is_countable : Bool
  pub count_delta : ℤ
  pub is_withdrawn : Bool
  pub is_test : Bool
  -- action LIKE '%禁言%'
  pub is_mute : Bool

-- member_group_states
pub record Business : Type 0 where
  pub status : Status
  pub total_count : ℕ
  pub deduct_count : ℕ
  pub current_count_cache : ℕ
  pub last_effective_violation_time : Option ℕ
  pub last_final_warning_time : Option ℕ
  pub locked : Bool

-- v102_policy_state
pub record Policy : Type 0 where
  pub policy_tag : PolicyTag
  pub slow_level : ℕ
  pub v102_operation_count : ℕ
  pub baseline_adjustment : ℤ
  pub baseline_deduct_count : ℕ
  pub baseline_locked : Bool
  pub baseline_status : Status
  pub baseline_record_watermark : ℕ
  pub baseline_last_final_warning_time : Option ℕ
  pub active_cycle_id : Option ℕ
  pub no_cycle_reason : Option NoCycleReason
  pub pending_action_type : Option ActionType
  pub last_processed_event_id : Option ℕ
  pub state_version : ℕ
  pub last_reason : Option String

-- v102_policy_cycles
pub record Cycle : Type 0 where
  pub id : ℕ
  pub cycle_type : CycleType
  pub start_at : ℕ
  pub due_at : ℕ
  pub status : CycleStatus
  pub slow_level : ℕ
  pub light_count : ℕ
  pub normal_light_count : ℕ
  pub slow_light_count : ℕ
  pub severe_count : ℕ
  pub slow_extended : Bool
  pub suggestion_rejected : Bool
  pub fixed_sequence : ℕ
  pub replay_generation : ℕ
  pub closed_reason : Option String
  pub decision_event_id : Option ℕ
  pub settlement_event_id : Option ℕ

-- v102_pending_actions
pub record Pending : Type 0 where
  pub id : ℕ
  pub action_type : ActionType
  pub status : PendingStatus
  pub due_at : Option ℕ
  pub reason : String
  pub caused_by_event_id : ℕ
  pub decision_event_id : Option ℕ
  pub idempotency_key : Key

-- The argument `recovery_mode`: "保留周期", "重新计时", or another text.
pub data RecoveryMode : Type 0 where
  keep_cycle restart_clock other_mode : RecoveryMode

-- v102_status_bridge_jobs
pub record StatusJob : Type 0 where
  pub id : ℕ
  pub effective_at : ℕ
  pub target_status : Status
  pub is_applied : Bool
  pub applied_event_id : Option ℕ
  pub idempotency_key : Key

-- The snapshot of a confirmed review.
pub record Checkpoint : Type 0 where
  pub reason : String
  pub actor : String
  pub pending_action_id : ℕ
  pub recovery_mode : RecoveryMode
  pub business : Business
  pub policy : Policy
  pub cycle : Option Cycle
  pub pending_actions : List Pending
  pub event_watermark : ℕ
  pub record_watermark : ℕ

-- payload_json, by the keys that the program writes.
pub data Payload : Type 0 where
  empty_payload : Payload
  mute_payload : Severity → Option ℕ → Option ℕ → Option ℕ → Payload
  cycle_payload : ℕ → Payload
  started_payload : ℕ → CycleType → ℕ → Payload
  slow_payload : ℕ → ℕ → ℕ → Payload
  extended_payload : ℕ → ℕ → Payload
  status_payload : Status → Payload
  manual_payload : String → Option ℕ → Payload
  settlement_payload : ℕ → ℕ → ℕ → Payload
  recovery_payload : ℕ → ℕ → Option ℕ → ℕ → Payload
  review_payload : String → ActionType → Payload
  decision_payload : String → String → ℕ → RecoveryMode → Payload
  checkpoint_payload : Checkpoint → Payload

-- v102_policy_events
pub record Event : Type 0 where
  pub id : ℕ
  pub event_type : EventType
  pub effective_time : ℕ
  pub event_priority : ℕ
  pub source_sequence : ℕ
  pub ingest_time : ℕ
  pub source_record_id : Option ℕ
  pub caused_by_event_id : Option ℕ
  pub replay_generation : ℕ
  pub payload : Payload
  pub idempotency_key : Key
  pub is_effective : Bool
  pub superseded_by_replay_id : Option ℕ

-- The rows of one scope, oldest first, and the next id of each table (AUTOINCREMENT).
pub record Db : Type 0 where
  pub records : List ViolationRecord
  -- MAX(id) of violation_records over every scope.
  pub last_record : ℕ
  pub business : Business
  pub policy : Option Policy
  pub cycles : List Cycle
  pub events : List Event
  -- The events of the other scopes, whose keys the unique column ranges over too.
  pub other_events : List Event
  pub pendings : List Pending
  pub jobs : List StatusJob
  pub next_cycle : ℕ
  pub next_event : ℕ
  pub next_pending : ℕ

-- PolicyOutcome
pub record PolicyOutcome : Type 0 where
  pub event_id : Option ℕ
  pub changed : Bool
  pub pending_action_id : Option ℕ

-- timedelta(days=1)
abbrev pub day : ℕ
day = 86400

-- `status in TERMINAL_STATUSES`
abbrev pub is_terminal : Status → Bool
is_terminal left = true
is_terminal removed = true
is_terminal blacklisted = true
is_terminal _ = false

abbrev pub is_last_warning : Status → Bool
is_last_warning last_warning = true
is_last_warning _ = false

abbrev pub is_consulted : Status → Bool
is_consulted consulted = true
is_consulted _ = false

abbrev pub is_normal : CycleType → Bool
is_normal normal = true
is_normal _ = false

abbrev pub is_slow : CycleType → Bool
is_slow slow = true
is_slow _ = false

abbrev pub is_stop : CycleType → Bool
is_stop stop = true
is_stop _ = false

-- `cycle_type in {"normal", "slow"}`; the other two types are {"stop", "final_warning"}.
abbrev pub is_normal_or_slow : CycleType → Bool
is_normal_or_slow normal = true
is_normal_or_slow slow = true
is_normal_or_slow _ = false

-- `status IN ('active', 'pending_decision')`
abbrev pub is_open : CycleStatus → Bool
is_open active = true
is_open pending_decision = true
is_open _ = false

abbrev pub is_active : CycleStatus → Bool
is_active active = true
is_active _ = false

abbrev pub is_pending_decision : CycleStatus → Bool
is_pending_decision pending_decision = true
is_pending_decision _ = false

abbrev pub is_pending : PendingStatus → Bool
is_pending pending = true
is_pending _ = false

abbrev pub is_severe : Severity → Bool
is_severe severe = true
is_severe _ = false

abbrev pub is_light : Severity → Bool
is_light light = true
is_light _ = false

abbrev pub action_code : ActionType → ℕ
action_code input_review = 0
action_code replay_review = 1
action_code duration_review = 2
action_code stop_suggestion = 3
action_code stop_decision = 4
action_code remove_member = 5
action_code final_warning_recovery_review = 6

abbrev pub action_eq : ActionType → ActionType → Bool
action_eq a b = action_code a == action_code b
