-- ===== src/Jobs/Stuck.antt =====
-- A job whose attempts are used up, and which waits all the same.
use qq_violation_bot.Prelude.{
  ℕ, ◌-◌, ◌≤◌, ◌<◌, ◌≡◌, refl, sym, subst, ◌∙◌, inl, inr, Bool, true, false, not, ◌&&◌, ◌||◌, List,
  [], ◌∷◌, ◌++◌, String, arith, All, All-update, All-append, update, exists, select, if-ind, ltb,
  ◌==◌, Bool-cases, Option-cases, if◌then◌else◌,
}
use qq_violation_bot.Jobs.Types.{
  JobType, Scope, Job, JobStatus, pending, cancelled, Settings, Queue, is_running,
}
use qq_violation_bot.Jobs.Queue.{
  has_id, is_same_input, is_merged, takes_more, merge_row, merge_job, insert_job, new_job,
  place_job,
}
use qq_violation_bot.Jobs.Work.{running_scopes, has_scope, is_offered, claim_rows, claim_jobs}

-- The job has not ended and does not run, or it was cancelled.
abbrev pub is_idle : JobStatus → Bool
is_idle pending = true
is_idle cancelled = true
is_idle _ = false

abbrev pub Spent : ℕ → ℕ → Job → Type 0
Spent limit i j = has_id i j ≡ true → (is_idle j.status ≡ true) × limit ≤ j.attempts

pub record IsStuck (limit i : ℕ) (q : Queue) : Type 0 where
  pub limit_kept : q.settings.max_attempts ≡ limit
  pub old : i < q.next_id
  pub present : exists (has_id i) q.jobs ≡ true
  pub spent : All (Spent limit i) q.jobs

pub record SpentStep (limit : ℕ) (j k : Job) : Type 0 where
  pub id : k.id ≡ j.id
  pub spent :
      is_idle j.status ≡ true → limit ≤ j.attempts → (is_idle k.status ≡ true) × limit ≤ k.attempts

idle_or_running : (s : JobStatus) → is_idle s ≡ true → is_running s ≡ true → ⊥
idle_or_running s idle runs = ground arith

-- A change of a running row.
pub SpentStep-running :
    (limit : ℕ) (j k : Job) → is_running j.status ≡ true → k.id ≡ j.id → SpentStep limit j k
SpentStep-running limit j k runs same = record {
  id = same;
  spent = λ idle spent. absurd (idle_or_running j.status idle runs);
}

Spent-step : (limit i : ℕ) (j k : Job) → SpentStep limit j k → Spent limit i j → Spent limit i k
Spent-step limit i j k s h same = let (idle, spent) = h (ground (arith, s.id)) in s.spent idle spent

module _ (limit i : ℕ) (test : Job → Bool) (f : Job → Job)
    (steps : (j : Job) → test j ≡ true → SpentStep limit j (f j)) where
  step_of : (j : Job) → SpentStep limit j (if test j then f j else j)
  step_of j = elim (Bool-cases (test j)) [
    | inl e ↦ rw e (steps j e)
    | inr e ↦ rw e (record { id = refl; spent = λ idle spent. (idle, spent) })
  ]

  pub exists-update : (js : List Job) → exists (has_id i) (update test f js) ≡ exists (has_id i) js
  unfolding exists update
  exists-update [] = refl
  exists-update (j ∷ js) = rw ((step_of j).id, exists-update js) refl

  Spent-update : (js : List Job) → All (Spent limit i) js → All (Spent limit i) (update test f js)
  Spent-update js v =
      All-update (Spent limit i) (Spent limit i) test f js
        (λ j h. Spent-step limit i j _ (step_of j) h) v

pub IsStuck-update :
    (limit i : ℕ) (q : Queue) (test : Job → Bool) (f : Job → Job)
    → ((j : Job) → test j ≡ true → SpentStep limit j (f j))
    → IsStuck limit i q
    → IsStuck limit i (record q { jobs = update test f q.jobs })
IsStuck-update limit i q test f steps v = record {
  limit_kept = v.limit_kept;
  old = v.old;
  present = exists-update limit i test f steps q.jobs ∙ v.present;
  spent = Spent-update limit i test f steps q.jobs v.spent;
}

pub IsStuck-running :
    (limit i : ℕ) (q : Queue) (test : Job → Bool) (f : Job → Job)
    → ((j : Job) → test j ≡ true → is_running j.status ≡ true)
    → ((j : Job) → (f j).id ≡ j.id)
    → IsStuck limit i q
    → IsStuck limit i (record q { jobs = update test f q.jobs })
IsStuck-running limit i q test f runs same v =
    IsStuck-update limit i q test f (λ j e. SpentStep-running limit j (f j) (runs j e) (same j)) v

module _ (i : ℕ) (s : Settings) (worker : String) (now : ℕ) (allowed : JobType → Bool) where
  abbrev Claimed : (List Job → Type 0) → List Job × List ℕ → Type 0
  Claimed P r = P r.0

  abbrev Keeps : Bool → List Job → Type 0
  Keeps b js = (exists (has_id i) js ≡ b) × All (Spent s.max_attempts i) js

  Keeps-claim_rows :
      (left : ℕ) (busy seen : List Scope) (js : List Job)
      → All (Spent s.max_attempts i) js
      → Keeps (exists (has_id i) js) (claim_rows s worker now allowed left busy seen js).0
  unfolding claim_rows exists
  Keeps-claim_rows left busy seen [] v = (refl, tt)
  Keeps-claim_rows left busy seen (j ∷ js) v =
      let P : List Job × List ℕ → Type 0 = Claimed (Keeps (exists (has_id i) (j ∷ js))) in
      if-ind P (left == 0) (λ _. (refl, v))
        (λ _.
          if-ind P (not (is_offered s allowed j) || has_scope j.scope seen)
            (λ _. let (e, w) = Keeps-claim_rows left busy seen js v.1 in (rw e refl, (v.0, w)))
            (λ offered.
              if-ind P (has_scope j.scope busy || ltb now j.next_run_at)
                (λ _.
                  let (e, w) = Keeps-claim_rows left busy (j.scope ∷ seen) js v.1 in
                  (rw e refl, (v.0, w)))
                (λ _.
                  let (e, w) =
                    Keeps-claim_rows (left - 1) (j.scope ∷ busy) (j.scope ∷ seen) js v.1 in
                  (rw e refl, ((λ same. absurd (ground (arith, v.0 same, offered))), w)))))

pub IsStuck-claim_jobs :
    (limit i : ℕ) (q : Queue) (worker : String) (now n : ℕ) (allowed : JobType → Bool)
    → IsStuck limit i q
    → IsStuck limit i (claim_jobs q worker now n allowed).1
unfolding claim_jobs
IsStuck-claim_jobs limit i q worker now n allowed v =
    let start : All (Spent q.settings.max_attempts i) q.jobs =
      subst (λ (m : ℕ). All (Spent m i) q.jobs) (sym v.limit_kept) v.spent in
    let (e, w) =
      Keeps-claim_rows i q.settings worker now allowed n (running_scopes q.jobs) [] q.jobs start in
    record {
      limit_kept = v.limit_kept;
      old = v.old;
      present = e ∙ v.present;
      spent =
          subst (λ (m : ℕ). All (Spent m i) (claim_jobs q worker now n allowed).1.jobs) v.limit_kept
            w;
    }

exists-append :
    (test : Job → Bool) (js : List Job) (j : Job)
    → exists test js ≡ true
    → exists test (js ++ j ∷ []) ≡ true
unfolding exists
exists-append test [] j h = absurd (cc)
exists-append test (k ∷ js) j h = ground (arith, exists-append test js j)

IsStuck-insert_job :
    (limit i : ℕ) (q : Queue) (type : JobType) (scope : Scope) (input version now : ℕ)
    → IsStuck limit i q
    → IsStuck limit i (insert_job q type scope input version now).1
unfolding new_job
IsStuck-insert_job limit i q type scope input version now v = record {
  limit_kept = v.limit_kept;
  old = omega (arith, v.old);
  present = exists-append (has_id i) q.jobs _ v.present;
  spent =
      All-append (Spent limit i) q.jobs _ v.spent (λ same. absurd (ground (arith, v.old, same)));
}

IsStuck-merge_job :
    (limit i : ℕ) (q : Queue) (j : Job) (type : JobType) (input now : ℕ)
    → IsStuck limit i q
    → IsStuck limit i (merge_job q j type input now).1
IsStuck-merge_job limit i q j type input now v =
    if-ind (λ (r : ℕ × Queue). IsStuck limit i r.1) (ltb j.input_through_id input)
      (λ _.
        IsStuck-update limit i q (has_id j.id) (merge_row q.settings type input now)
          (λ k e. record { id = refl; spent = λ idle spent. (idle, spent) }) v)
      (λ _. v)

pub IsStuck-place_job :
    (limit i : ℕ) (q : Queue) (type : JobType) (scope : Scope) (input version now : ℕ)
    → IsStuck limit i q
    → IsStuck limit i (place_job q type scope input version now).1
unfolding place_job
IsStuck-place_job limit i q type scope input version now v =
    elim (Option-cases (select (is_same_input type scope input) q.jobs)) [
      | inr (same, e) ↦ rw (e, place_job) v
      | inl none_ ↦
          rw (none_, place_job)
            (elim (Option-cases
              (select (λ (j : Job). is_merged type && takes_more type scope j) q.jobs)) [
                | inr (j, e) ↦ rw (e, place_job) (IsStuck-merge_job limit i q j type input now v)
                | inl new ↦
                    rw (new, place_job)
                      (IsStuck-insert_job limit i q type scope input version now v)
              ])
    ]
