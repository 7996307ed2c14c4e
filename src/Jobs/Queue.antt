-- ===== src/Jobs/Queue.antt =====
-- The operations of MemoryJobQueue, each one transaction. Rows are changed by their id, which is the
-- primary key; the clock is an argument, and so are the checks of a user's and a persona's id, which
-- are regular expressions.
use Prim.Native.Nat.{min}
use qq_violation_bot.Prelude.{
  ℕ, ◌+◌, Bool, true, false, not, ◌&&◌, Option, none, some, [], ◌∷◌, ◌++◌, String, Result, ok,
  raise, select, update, ltb, leb, ◌==◌, if◌then◌else◌,
}
use qq_violation_bot.Jobs.Types.{
  JobType, private_summary, private_facts, relationship, member_facts, Kind, private, group,
  pending, Scope, Job, Settings, Queue, is_pending, is_live, same_type, same_scope,
}

-- RuntimeError and the ValueErrors of enqueue.
pub data JobError : Type 0 where
  intake_stopped wrong_scope bad_user bad_persona : JobError

-- The scope that a type of job wants.
abbrev pub fits_type : JobType → Kind → Bool
fits_type private_summary private = true
fits_type private_facts private = true
fits_type member_facts group = true
fits_type relationship kind = true
fits_type _ _ = false

-- _validate_scope, as to the group.
abbrev pub fits_group : Kind → Option ℕ → Bool
fits_group private none = true
fits_group private (some g) = false
fits_group group none = false
fits_group group (some g) = ltb 0 g

abbrev pub is_work : JobType → Scope → Job → Bool
is_work type scope j = same_type j.job_type type && same_scope j.scope scope

abbrev pub is_same_input : JobType → Scope → ℕ → Job → Bool
is_same_input type scope input j =
    is_live j.status && (is_work type scope j && j.input_through_id == input)

-- job_type in {"private_facts", "relationship", "member_facts"}
abbrev pub is_merged : JobType → Bool
is_merged private_summary = false
is_merged _ = true

-- A waiting job that takes more input.
abbrev pub takes_more : JobType → Scope → Job → Bool
takes_more type scope j = is_pending j.status && (j.attempts == 0 && is_work type scope j)

unfoldable pub merged_due : Settings → JobType → ℕ → Job → ℕ
merged_due s relationship now j =
    min (now + s.relationship_debounce_seconds) (j.created_at + s.relationship_max_wait_seconds)
merged_due s member_facts now j =
    if leb s.member_batch_threshold (j.input_count + 1)
    then now
    else j.created_at + s.member_batch_delay_seconds
merged_due s _ now j = now

abbrev pub merge_row : Settings → JobType → ℕ → ℕ → Job → Job
merge_row s type input now j = record j {
  input_through_id = input;
  input_count = j.input_count + 1;
  next_run_at = merged_due s type now j;
  updated_at = now;
}

unfoldable pub first_due : Settings → JobType → ℕ → ℕ
first_due s relationship now = now + s.relationship_debounce_seconds
first_due s member_facts now = now + s.member_batch_delay_seconds
first_due s _ now = now

unfoldable pub new_job : Settings → ℕ → JobType → Scope → ℕ → ℕ → ℕ → Job
new_job s i type scope input version now = record {
  id = i;
  job_type = type;
  scope = scope;
  input_through_id = input;
  input_from_id = input;
  input_count = 1;
  expected_version = version;
  status = pending;
  attempts = 0;
  next_run_at = first_due s type now;
  lease_owner = none;
  lease_expires_at = none;
  claim_version = 0;
  error_code = "";
  created_at = now;
  updated_at = now;
}

abbrev pub has_id : ℕ → Job → Bool
has_id i j = j.id == i

-- The INSERT; the SELECT before it repeats the one for the same input.
abbrev pub insert_job : Queue → JobType → Scope → ℕ → ℕ → ℕ → ℕ × Queue
insert_job q type scope input version now = (
  q.next_id,
  record q {
    jobs = q.jobs ++ new_job q.settings q.next_id type scope input version now ∷ [];
    next_id = q.next_id + 1;
  },
)

abbrev pub merge_job : Queue → Job → JobType → ℕ → ℕ → ℕ × Queue
merge_job q j type input now =
    if ltb j.input_through_id input
    then (
      j.id,
      record q { jobs = update (has_id j.id) (merge_row q.settings type input now) q.jobs },
    )
    else (j.id, q)

-- The transaction of enqueue.
unfoldable pub place_job : Queue → JobType → Scope → ℕ → ℕ → ℕ → ℕ × Queue
place_job q type scope input version now = elim (select (is_same_input type scope input) q.jobs) [
  | some same ↦ (same.id, q)
  | none ↦ elim (select (λ (j : Job). is_merged type && takes_more type scope j) q.jobs) [
    | some j ↦ merge_job q j type input now
    | none ↦ insert_job q type scope input version now
  ]
]

module _ (valid_user valid_persona : String → Bool) where
  unfoldable pub enqueue_job : Queue → JobType → Scope → ℕ → ℕ → ℕ → Result JobError (ℕ × Queue)
  enqueue_job q type scope input version now =
      if not q.accepting
      then raise intake_stopped
      else if not (fits_type type scope.conversation_kind)
      then raise wrong_scope
      else if not (valid_user scope.user_id)
      then raise bad_user
      else if not (fits_group scope.conversation_kind scope.group_id)
      then raise wrong_scope
      else if not (valid_persona scope.persona_id)
      then raise bad_persona
      else ok (place_job q type scope input version now)
