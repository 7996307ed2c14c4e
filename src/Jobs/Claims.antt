-- ===== src/Jobs/Claims.antt =====
-- A claim keeps the running jobs of the conversations apart.
use text.Mathlib.TextPositions.{eq_refl}
use qq_violation_bot.Prelude.{
  ℕ, ◌-◌, ◌≡◌, refl, sym, subst, inl, inr, Bool, true, false, not, ◌||◌, Option, none, some, List,
  [], ◌∷◌, String, arith, All, All-map, ltb, ◌==◌, if-ind, Bool-cases,
}
use qq_violation_bot.Jobs.Types.{
  JobType, Scope, Job, Settings, Queue, is_running, same_scope, same_id,
}
use qq_violation_bot.Jobs.Work.{running_scopes, has_scope, claim_rows, is_offered, claim_jobs}
use qq_violation_bot.Jobs.Valid.{Clear, IsSound, IsValid, OneRunning, scopes_eq}

same_id_refl : (a : Option ℕ) → same_id a a ≡ true
same_id_refl none = refl
same_id_refl (some a) = ground arith

same_scope_refl : (k : Scope) → same_scope k k ≡ true
unfolding same_scope
same_scope_refl k = ground (arith, same_id_refl k.group_id, eq_refl k.user_id, eq_refl k.persona_id)

-- The running jobs of the rows are among the busy conversations.
abbrev Busy : List Scope → List Job → Type 0
Busy busy = All (λ j. is_running j.status ≡ true → has_scope j.scope busy ≡ true)

Busy-cons : (l : Scope) (busy : List Scope) (js : List Job) → Busy busy js → Busy (l ∷ busy) js
Busy-cons l busy js v =
    All-map (λ (j : Job). is_running j.status ≡ true → has_scope j.scope busy ≡ true) _ js
      (λ j h runs. ground (arith, h runs)) v

Busy-running_scopes : (js : List Job) → Busy (running_scopes js) js
Busy-running_scopes [] = tt
Busy-running_scopes (j ∷ js) = elim (Bool-cases (is_running j.status)) [
  | inl e ↦
      let scopes : running_scopes (j ∷ js) ≡ j.scope ∷ running_scopes js = rw e refl in
      subst (λ (b : List Scope). Busy b (j ∷ js)) (sym scopes)
        (
          (λ _. ground (arith, same_scope_refl j.scope)),
          Busy-cons j.scope (running_scopes js) js (Busy-running_scopes js),
        )
  | inr e ↦
      let scopes : running_scopes (j ∷ js) ≡ running_scopes js = rw e refl in
      subst (λ (b : List Scope). Busy b (j ∷ js)) (sym scopes)
        ((λ h. absurd (cc)), Busy-running_scopes js)
]

-- A conversation that is not busy has no running job.
Clear-of_free :
    (k : Scope) (busy : List Scope) (js : List Job)
    → has_scope k busy ≡ false
    → Busy busy js
    → All (Clear k) js
Clear-of_free k busy js free v =
    All-map (λ (j : Job). is_running j.status ≡ true → has_scope j.scope busy ≡ true) (Clear k) js
      (λ j h runs. elim (Bool-cases (same_scope k j.scope)) [
        | inr e ↦ e
        | inl e ↦
            let taken : has_scope k busy ≡ true =
              subst (λ (l : Scope). has_scope l busy ≡ true) (sym (scopes_eq k j.scope e))
                (h runs) in
            absurd (cc)
      ])
      v

-- Two conversations, one busy and one free, are not the same.
apart_of_free :
    (k l : Scope) (busy : List Scope)
    → has_scope k busy ≡ true
    → has_scope l busy ≡ false
    → same_scope k l ≡ false
apart_of_free k l busy taken free = elim (Bool-cases (same_scope k l)) [
  | inr e ↦ e
  | inl e ↦
      let same : has_scope l busy ≡ true =
        subst (λ (x : Scope). has_scope x busy ≡ true) (scopes_eq k l e) taken in
      absurd (cc)
]

module _ (s : Settings) (worker : String) (now : ℕ) (allowed : JobType → Bool) where
  abbrev Claimed : (List Job → Type 0) → List Job × List ℕ → Type 0
  Claimed P r = P r.0

  Clear-claim_rows :
      (k : Scope) (left : ℕ) (busy seen : List Scope) (js : List Job)
      → has_scope k busy ≡ true
      → All (Clear k) js
      → All (Clear k) (claim_rows s worker now allowed left busy seen js).0
  unfolding claim_rows
  Clear-claim_rows k left busy seen [] taken v = tt
  Clear-claim_rows k left busy seen (j ∷ js) taken v =
      if-ind (Claimed (All (Clear k))) (left == 0) (λ _. v)
        (λ _.
          if-ind (Claimed (All (Clear k))) (not (is_offered s allowed j) || has_scope j.scope seen)
            (λ _. (v.0, Clear-claim_rows k left busy seen js taken v.1))
            (λ _.
              if-ind (Claimed (All (Clear k))) (has_scope j.scope busy || ltb now j.next_run_at)
                (λ _. (v.0, Clear-claim_rows k left busy (j.scope ∷ seen) js taken v.1))
                (λ free. (
                  (λ _. apart_of_free k j.scope busy taken (ground (arith, free))),
                  Clear-claim_rows k (left - 1) (j.scope ∷ busy) (j.scope ∷ seen) js
                      (ground (arith, taken)) v.1,
                ))))

  OneRunning-claim_rows :
      (left : ℕ) (busy seen : List Scope) (js : List Job)
      → Busy busy js
      → OneRunning js
      → OneRunning (claim_rows s worker now allowed left busy seen js).0
  unfolding claim_rows
  OneRunning-claim_rows left busy seen [] b v = tt
  OneRunning-claim_rows left busy seen (j ∷ js) b v =
      if-ind (Claimed OneRunning) (left == 0) (λ _. v)
        (λ _.
          if-ind (Claimed OneRunning) (not (is_offered s allowed j) || has_scope j.scope seen)
            (λ _. (
              (λ runs. Clear-claim_rows j.scope left busy seen js (b.0 runs) (v.0 runs)),
              OneRunning-claim_rows left busy seen js b.1 v.1,
            ))
            (λ _.
              if-ind (Claimed OneRunning) (has_scope j.scope busy || ltb now j.next_run_at)
                (λ _. (
                  (λ runs.
                      Clear-claim_rows j.scope left busy (j.scope ∷ seen) js (b.0 runs) (v.0 runs)),
                  OneRunning-claim_rows left busy (j.scope ∷ seen) js b.1 v.1,
                ))
                (λ free.
                  let idle : has_scope j.scope busy ≡ false = ground (arith, free) in
                  (
                    (λ _.
                        Clear-claim_rows j.scope (left - 1) (j.scope ∷ busy) (j.scope ∷ seen) js
                          (ground (arith, same_scope_refl j.scope))
                          (Clear-of_free j.scope busy js idle b.1)),
                    OneRunning-claim_rows (left - 1) (j.scope ∷ busy) (j.scope ∷ seen) js
                        (Busy-cons j.scope busy js b.1) v.1,
                  ))))

  IsSound-claim_rows :
      (left : ℕ) (busy seen : List Scope) (js : List Job)
      → All (IsSound s.max_attempts) js
      → All (IsSound s.max_attempts) (claim_rows s worker now allowed left busy seen js).0
  unfolding claim_rows
  IsSound-claim_rows left busy seen [] v = tt
  IsSound-claim_rows left busy seen (j ∷ js) v =
      if-ind (Claimed (All (IsSound s.max_attempts))) (left == 0) (λ _. v)
        (λ _.
          if-ind (Claimed (All (IsSound s.max_attempts)))
            (not (is_offered s allowed j) || has_scope j.scope seen)
            (λ _. (v.0, IsSound-claim_rows left busy seen js v.1))
            (λ offered.
              if-ind (Claimed (All (IsSound s.max_attempts)))
                (has_scope j.scope busy || ltb now j.next_run_at)
                (λ _. (v.0, IsSound-claim_rows left busy (j.scope ∷ seen) js v.1))
                (λ _. (
                  record {
                    bound = ground (arith, offered);
                    owner = refl;
                    tried = λ _. omega arith;
                  },
                  IsSound-claim_rows (left - 1) (j.scope ∷ busy) (j.scope ∷ seen) js v.1,
                ))))

pub IsValid-claim_jobs :
    (q : Queue) (worker : String) (now limit : ℕ) (allowed : JobType → Bool)
    → IsValid q
    → IsValid (claim_jobs q worker now limit allowed).1
unfolding claim_jobs
IsValid-claim_jobs q worker now limit allowed v = record {
  sound =
      IsSound-claim_rows q.settings worker now allowed limit (running_scopes q.jobs) [] q.jobs
        v.sound;
  apart =
      OneRunning-claim_rows q.settings worker now allowed limit (running_scopes q.jobs) [] q.jobs
        (Busy-running_scopes q.jobs) v.apart;
}
