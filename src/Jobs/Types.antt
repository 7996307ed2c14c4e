-- ===== src/Jobs/Types.antt =====
-- The table memory_jobs of plugins/private_memory/schema.py and the settings of MemoryJobQueue. Times
-- are seconds.
use text.Mathlib.Text.{◌==◌ as str_eq}
use qq_violation_bot.Prelude.{ℕ, Bool, true, false, ◌&&◌, Option, none, some, List, String, ◌==◌}

pub data JobType : Type 0 where
  private_summary private_facts relationship member_facts : JobType

pub data Kind : Type 0 where
  private group : Kind

pub data JobStatus : Type 0 where
  pending running succeeded failed cancelled : JobStatus

-- (conversation_kind, group_id, user_id, persona_id)
pub record Scope : Type 0 where
  pub conversation_kind : Kind
  pub group_id : Option ℕ
  pub user_id : String
  pub persona_id : String

pub record Job : Type 0 where
  pub id : ℕ
  pub job_type : JobType
  pub scope : Scope
  pub input_through_id : ℕ
  pub input_from_id : ℕ
  pub input_count : ℕ
  pub expected_version : ℕ
  pub status : JobStatus
  pub attempts : ℕ
  pub next_run_at : ℕ
  pub lease_owner : Option String
  pub lease_expires_at : Option ℕ
  pub claim_version : ℕ
  pub error_code : String
  pub created_at : ℕ
  pub updated_at : ℕ

pub record Settings : Type 0 where
  pub lease_seconds : ℕ
  pub max_attempts : ℕ
  pub backoff_base_seconds : ℕ
  pub relationship_debounce_seconds : ℕ
  pub relationship_max_wait_seconds : ℕ
  pub member_batch_delay_seconds : ℕ
  pub member_batch_threshold : ℕ

-- The rows by their ids, and the next id.
pub record Queue : Type 0 where
  pub settings : Settings
  pub accepting : Bool
  pub jobs : List Job
  pub next_id : ℕ

abbrev pub is_pending : JobStatus → Bool
is_pending pending = true
is_pending _ = false

abbrev pub is_running : JobStatus → Bool
is_running running = true
is_running _ = false

-- `status IN ('pending','running')`
abbrev pub is_live : JobStatus → Bool
is_live pending = true
is_live running = true
is_live _ = false

abbrev pub type_code : JobType → ℕ
type_code private_summary = 0
type_code private_facts = 1
type_code relationship = 2
type_code member_facts = 3

abbrev pub same_type : JobType → JobType → Bool
same_type a b = type_code a == type_code b

abbrev pub kind_code : Kind → ℕ
kind_code private = 0
kind_code group = 1

abbrev pub same_id : Option ℕ → Option ℕ → Bool
same_id none none = true
same_id (some a) (some b) = a == b
same_id _ _ = false

unfoldable pub same_scope : Scope → Scope → Bool
same_scope a b =
    kind_code a.conversation_kind == kind_code b.conversation_kind
    && (same_id a.group_id b.group_id
        && (str_eq a.user_id b.user_id && str_eq a.persona_id b.persona_id))

abbrev pub owned_by : String → Option String → Bool
owned_by worker none = false
owned_by worker (some w) = str_eq w worker
