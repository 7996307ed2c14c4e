-- ===== src/Jobs/Valid.antt =====
-- Well-formed queues, and the operations that keep them.
use text.Mathlib.TextEquality.{eq_iff}
use qq_violation_bot.Prelude.{
  ℕ, ◌≤◌, ◌≡◌, refl, sym, ap, subst, ◌∙◌, inl, inr, Bool, true, false, Option, none, some, List, [],
  ◌∷◌, arith, All, All-update, update, ◌==◌, if◌then◌else◌, Bool-cases,
}
use qq_violation_bot.Jobs.Types.{
  Kind, private, group, kind_code, Scope, Job, Queue, is_running, same_scope, same_id,
}

abbrev pub is_some {ℓ} : {A : Type ℓ} → Option A → Bool
is_some none = false
is_some (some a) = true

-- The attempts are within the limit, a running job has been tried, and exactly those have an owner.
pub record IsSound (limit : ℕ) (j : Job) : Type 0 where
  pub bound : j.attempts ≤ limit
  pub owner : is_some j.lease_owner ≡ is_running j.status
  pub tried : is_running j.status ≡ true → 1 ≤ j.attempts

-- The job does not run in this conversation.
abbrev pub Clear : Scope → Job → Type 0
Clear k j = is_running j.status ≡ true → same_scope k j.scope ≡ false

-- No two jobs of one conversation run.
abbrev pub OneRunning : List Job → Type 0
OneRunning [] = Unit
OneRunning (j ∷ js) = (is_running j.status ≡ true → All (Clear j.scope) js) × OneRunning js

pub record IsValid (q : Queue) : Type 0 where
  pub sound : All (IsSound q.settings.max_attempts) q.jobs
  pub apart : OneRunning q.jobs

same_ids : (a b : Option ℕ) → same_id a b ≡ true → a ≡ b
same_ids none none h = refl
same_ids none (some b) h = absurd (cc)
same_ids (some a) none h = absurd (cc)
same_ids (some a) (some b) h = ground arith

same_kinds : (a b : Kind) → (kind_code a == kind_code b) ≡ true → a ≡ b
same_kinds private private h = refl
same_kinds private group h = absurd (ground arith)
same_kinds group private h = absurd (ground arith)
same_kinds group group h = refl

pub scopes_eq : (a b : Scope) → same_scope a b ≡ true → a ≡ b
unfolding same_scope
scopes_eq a b h = ground (
  arith,
  same_kinds a.conversation_kind b.conversation_kind,
  same_ids a.group_id b.group_id,
  eq_iff a.user_id b.user_id,
  eq_iff a.persona_id b.persona_id,
  h,
)

-- What an UPDATE may do to a row.
pub record JobStep (limit : ℕ) (j k : Job) : Type 0 where
  pub scope : k.scope ≡ j.scope
  pub runs : is_running k.status ≡ true → is_running j.status ≡ true
  pub sound : IsSound limit j → IsSound limit k

module _ (limit : ℕ) (test : Job → Bool) (f : Job → Job)
    (steps : (j : Job) → test j ≡ true → JobStep limit j (f j)) where
  step_of : (j : Job) → JobStep limit j (if test j then f j else j)
  step_of j = elim (Bool-cases (test j)) [
    | inl e ↦ rw e (steps j e)
    | inr e ↦ rw e (record { scope = refl; runs = λ h. h; sound = λ h. h })
  ]

  IsSound-update : (js : List Job) → All (IsSound limit) js → All (IsSound limit) (update test f js)
  IsSound-update js v =
      All-update (IsSound limit) (IsSound limit) test f js (λ j h. (step_of j).sound h) v

  Clear-update : (k : Scope) (js : List Job) → All (Clear k) js → All (Clear k) (update test f js)
  Clear-update k js v =
      All-update (Clear k) (Clear k) test f js
        (λ j h runs. ap (same_scope k) (step_of j).scope ∙ h ((step_of j).runs runs)) v

  OneRunning-update : (js : List Job) → OneRunning js → OneRunning (update test f js)
  unfolding update
  OneRunning-update [] v = tt
  OneRunning-update (j ∷ js) v = (
    (λ runs.
        subst (λ (k : Scope). All (Clear k) (update test f js)) (sym (step_of j).scope)
          (Clear-update j.scope js (v.0 ((step_of j).runs runs)))),
    OneRunning-update js v.1,
  )

pub IsValid-update :
    (q : Queue) (test : Job → Bool) (f : Job → Job)
    → ((j : Job) → test j ≡ true → JobStep q.settings.max_attempts j (f j))
    → IsValid q
    → IsValid (record q { jobs = update test f q.jobs })
IsValid-update q test f steps v = record {
  sound = IsSound-update q.settings.max_attempts test f steps q.jobs v.sound;
  apart = OneRunning-update q.settings.max_attempts test f steps q.jobs v.apart;
}

-- A row that comes out of the running state, with its attempts or fewer.
pub JobStep-stopped :
    (limit : ℕ) (j k : Job)
    → k.scope ≡ j.scope
    → is_running k.status ≡ false
    → is_some k.lease_owner ≡ false
    → k.attempts ≤ j.attempts
    → JobStep limit j k
JobStep-stopped limit j k same stopped free fewer = record {
  scope = same;
  runs = λ h. absurd (cc);
  sound = λ v. record {
    bound = omega (arith, v.bound, fewer);
    owner = free ∙ sym stopped;
    tried = λ h. absurd (cc);
  };
}
