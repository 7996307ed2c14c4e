-- ===== src/Policy/Manual/Keep.antt =====
-- The administrator's decisions keep a scope well-formed.
use qq_violation_bot.Prelude.{
  ℕ, ◌+◌, ◌≡◌, refl, ◌∙◌, true, false, ◌||◌, Option, none, some, String, arith, Bool-cases,
  Option-cases, inl, inr, select, ◌==◌, leb, if◌then◌else◌,
}
use qq_violation_bot.Policy.Types.{
  Db, Cycle, Key, Pending, PolicyOutcome, normal, stop, closed, zero_count, operation_limit,
  NoCycleReason, stop_suggestion, stop_decision, manual_stop_started, manual_stop_cleared,
  manual_stop_renewed, stop_suggestion_rejected, manual_payload, is_terminal, is_last_warning,
  is_normal, is_normal_or_slow, is_pending_decision, action_eq,
}
use qq_violation_bot.Policy.Count.{all_records, current_count}
use qq_violation_bot.Policy.Events.{
  NewEvent, insert_event, ensure_policy_state, update_policy, find_pending, resolve_pending_actions,
}
use qq_violation_bot.Policy.Cycles.{
  active_cycle, active_cycle_id, update_cycle, has_id, start_cycle, set_no_cycle, close_row,
}
use qq_violation_bot.Policy.Invariant.{
  IsValid, IsValidFrom, IsIdle, SameCore, SameCore-trans, IsValidFrom-SameCore, IsIdle-SameCore,
  IsIdle-IsValidFrom, IsValidFrom-weaken, IsIdle-update_cycle, IsIdle-update_policy,
  IsValidFrom-update_cycle, IsValidFrom-touch_cycle, SameCore-update_policy,
}
use qq_violation_bot.Policy.Invariant.Keep.{
  SameCore-insert_event, SameCore-ensure, SameCore-resolve, IsValidFrom-start_cycle,
  IsIdle-cancel_active_cycle, IsValidFrom-apply_reduction, active_cycle_id-apply_reduction,
  IsIdle-set_no_cycle, active_cycle-pointer,
}
use qq_violation_bot.Policy.Manual.{
  Result, ok, raise, blocked, is_blank, is_stopped, decision_event, begin_stop, start_manual_stop,
  due_stop, is_good_stop, clear_stop, restart_normal, decided_row, cleared_policy, bad_evaluation,
  outcome, clear_manual_stop, settle_rejection, reject_stop_suggestion, drop_pointer, renew_stop,
  renew_manual_stop, transfer_waiting, reject_known, after_renewal,
}

-- The tables of a result that is not an exception are well-formed.
abbrev pub Sound : Result (PolicyOutcome × Db) → Type 0
Sound (ok r) = IsValid r.1
Sound (raise e) = Unit

IsValid-at_zero : {t : ℕ} {db : Db} → IsValidFrom t db → IsValid db
IsValid-at_zero {t} v = IsValidFrom-weaken {t = t} (omega arith) v

IsValid-begin_stop :
    (db : Db) (at : ℕ) (why : String) (e g : ℕ) → IsValid db → IsValid (begin_stop db at why e g)
unfolding begin_stop
IsValid-begin_stop db at why e g v =
    IsValidFrom-SameCore (SameCore-update_policy _ _ (λ p. refl) (λ p. refl)) (
      IsValid-at_zero (
        IsValidFrom-start_cycle _ stop at e 1 g (
          IsIdle-SameCore (SameCore-resolve _ e (action_eq stop_suggestion))
            (IsIdle-cancel_active_cycle db "manual_stop_started" v))))

Sound-start :
    (db : Db) (at : ℕ) (why : String) (k : Key) (by : Option ℕ) (g : ℕ)
    → IsValid db
    → Sound (start_manual_stop db at why k by g)
unfolding start_manual_stop
Sound-start db at why k by g v = elim (Bool-cases (blocked db g)) [
  | inl e ↦ rw e tt
  | inr e ↦ rw e (elim (Bool-cases (is_blank why)) [
    | inl e ↦ rw e tt
    | inr e ↦
        rw e
          (elim (Bool-cases
            (is_terminal db₁.business.status || is_last_warning db₁.business.status)) [
              | inl e ↦ rw e tt
              | inr e ↦ rw e (elim (Bool-cases (is_stopped (active_cycle db₁))) [
                | inl e ↦ rw e tt
                | inr e ↦ rw e (elim (Bool-cases (insert_event db₁ ev).1) [
                  | inl e ↦ rw e (IsValid-begin_stop _ at why _ g valid)
                  | inr e ↦ rw e valid
                ])
              ])
            ])
  ])
]
  where
    db₁ : Db
    db₁ = (ensure_policy_state db).1

    ev : NewEvent
    ev = decision_event manual_stop_started at 0 k (manual_payload why none) by g

    valid : IsValid (insert_event db₁ ev).2
    valid =
        IsValidFrom-SameCore (SameCore-trans (SameCore-ensure db) (SameCore-insert_event db₁ ev)) v

due_stop-active : (db : Db) (c : Cycle) → due_stop db ≡ some c → active_cycle db ≡ some c
unfolding due_stop
due_stop-active db c e = ground arith

pub due_stop-pointer : (db : Db) (c : Cycle) → due_stop db ≡ some c → active_cycle_id db ≡ some c.id
due_stop-pointer db c e = active_cycle-pointer db c (due_stop-active db c e)

IsValid-restart_normal : (db : Db) (at e g : ℕ) → IsIdle db → IsValid (restart_normal db at e g)
unfolding restart_normal
IsValid-restart_normal db at e g v = elim (Bool-cases (current_count db.business == 0)) [
  | inl z ↦ rw z (refused zero_count)
  | inr z ↦ rw z (elim (Bool-cases (leb 5 (ensure_policy_state db).0.v102_operation_count)) [
    | inl l ↦ rw l (refused operation_limit)
    | inr l ↦ rw l (IsValid-at_zero (IsValidFrom-start_cycle _ normal at e 0 g idle))
  ])
]
  where
    idle : IsIdle (ensure_policy_state db).1
    idle = IsIdle-SameCore (SameCore-ensure db) v

    refused : (why : NoCycleReason) → IsValid (set_no_cycle (ensure_policy_state db).1 why false)
    refused why = IsIdle-IsValidFrom 0 (IsIdle-set_no_cycle why false idle)

pub IsValid-clear_stop :
    (db : Db) (c : Cycle) (at : ℕ) (why : String) (e g : ℕ)
    → IsValid db
    → active_cycle_id db ≡ some c.id
    → IsValid (clear_stop db c at why e g)
unfolding clear_stop
IsValid-clear_stop db c at why e g v here = IsValid-restart_normal _ at e g (
    IsIdle-update_policy (cleared_policy why e) _ (λ p h. h)
      (IsIdle-SameCore (SameCore-resolve _ e (action_eq stop_decision)) (
        IsIdle-update_cycle c.id (decided_row e "manual_clear") (λ d. refl) (λ d. refl)
          (active_cycle_id-apply_reduction db 1 all_records ∙ here)
          (IsValidFrom-apply_reduction db 1 all_records v))))

Sound-clear :
    (db : Db) (at : ℕ) (why : String) (k : Key) (by : Option ℕ) (g : ℕ)
    → IsValid db
    → Sound (clear_manual_stop db at why k by g)
unfolding clear_manual_stop
Sound-clear db at why k by g v = elim (Bool-cases (blocked db g)) [
  | inl e ↦ rw e tt
  | inr e ↦ rw e (elim (Bool-cases (is_blank why)) [
    | inl e ↦ rw e tt
    | inr e ↦ rw e (elim (Option-cases (due_stop db)) [
      | inl e ↦ rw (e, clear_manual_stop) tt
      | inr (c, e) ↦ rw (e, clear_manual_stop) (cleared c e)
    ])
  ])
]
  where
    cleared :
        (c : Cycle)
        → due_stop db ≡ some c
        → Sound (
            if is_good_stop c
            then (let (e, created, db₁) = insert_event db (
                  decision_event manual_stop_cleared at 0 k
                    (manual_payload why (some c.id))
                    by
                    g) in
                if created
                then ok (outcome e true, clear_stop db₁ c at why e g)
                else ok (outcome e false, db₁))
            else raise bad_evaluation)
    cleared c here =
        let ev = decision_event manual_stop_cleared at 0 k (manual_payload why (some c.id)) by g in
        let same = SameCore-insert_event db ev in
        elim (Bool-cases (is_good_stop c)) [
          | inr e ↦ rw e tt
          | inl e ↦ rw e (elim (Bool-cases (insert_event db ev).1) [
            | inl e ↦ rw e (
                IsValid-clear_stop _ c at why _ g (IsValidFrom-SameCore same v)
                  (same.pointer ∙ due_stop-pointer db c here))
            | inr e ↦ rw e (IsValidFrom-SameCore same v)
          ])
        ]

IsValid-settle_rejection :
    (db : Db) (c : Cycle) (e g : ℕ)
    → IsValid db
    → active_cycle_id db ≡ some c.id
    → IsValid (settle_rejection db c e g)
unfolding settle_rejection
IsValid-settle_rejection db c e g v here = elim (Bool-cases (is_pending_decision c.status)) [
  | inr p ↦ rw (p, settle_rejection) v
  | inl p ↦
      rw (p, settle_rejection)
        (elim (Bool-cases (is_normal c.cycle_type)) [
          | inl n ↦ rw n (
              IsValid-at_zero (
                IsValidFrom-start_cycle _ normal c.due_at e 0 g (
                  IsIdle-update_policy _ _ (λ q h. h)
                    (IsIdle-update_cycle c.id (close_row closed "suggestion_rejected") (λ d. refl)
                      (λ d. refl) here v))))
          | inr n ↦
              rw n (IsValidFrom-update_cycle 0 c.id _ (λ d. refl) (λ d _ h. omega arith) here v)
        ])
]

IsValid-reject_known :
    (db : Db) (c : Cycle) (p : Pending) (at : ℕ) (why : String) (k : Key) (by : Option ℕ) (g : ℕ)
    → IsValid db
    → active_cycle_id db ≡ some c.id
    → IsValid (reject_known db c p at why k by g).1
unfolding reject_known update_cycle resolve_pending_actions
IsValid-reject_known db c p at why k by g v here = elim (Bool-cases (insert_event db ev).1) [
  | inl e ↦ rw e (
      IsValidFrom-SameCore (SameCore-update_policy _ _ (λ q. refl) (λ q. refl)) (
        IsValid-settle_rejection _ c _ g
          (IsValidFrom-touch_cycle c.id _ (λ d. (refl, refl, refl)) (IsValidFrom-SameCore same v))
          (same.pointer ∙ here)))
  | inr e ↦ rw e (IsValidFrom-SameCore (SameCore-insert_event db ev) v)
]
  where
    ev : NewEvent
    ev =
        decision_event stop_suggestion_rejected at p.id k (manual_payload why (some c.id))
          (elim by [ none ↦ some p.caused_by_event_id | some i ↦ some i ]) g

    same : SameCore db (
        resolve_pending_actions
          (insert_event db ev).2
          (insert_event db ev).0
          (action_eq stop_suggestion))
    same =
        SameCore-trans (SameCore-insert_event db ev)
          (SameCore-resolve _ _ (action_eq stop_suggestion))

Sound-reject :
    (db : Db) (at : ℕ) (why : String) (k : Key) (by : Option ℕ) (g : ℕ)
    → IsValid db
    → Sound (reject_stop_suggestion db at why k by g)
unfolding reject_stop_suggestion
Sound-reject db at why k by g v = elim (Bool-cases (blocked db g)) [
  | inl e ↦ rw e tt
  | inr e ↦ rw e (elim (Bool-cases (is_blank why)) [
    | inl e ↦ rw e tt
    | inr e ↦ rw e (elim (Option-cases (active_cycle db)) [
      | inl e ↦ rw (e, reject_stop_suggestion) tt
      | inr (c, e) ↦ elim (Option-cases (find_pending db (action_eq stop_suggestion))) [
        | inl f ↦ rw (e, f, reject_stop_suggestion) tt
        | inr (p, f) ↦
            rw (e, f, reject_stop_suggestion)
              (elim (Bool-cases (is_normal_or_slow c.cycle_type)) [
                | inl n ↦
                    rw n (IsValid-reject_known db c p at why k by g v (active_cycle-pointer db c e))
                | inr n ↦ rw n tt
              ])
      ]
    ])
  ])
]

-- The tables of a renewal that is not an exception are well-formed.
abbrev SoundDb : Result Db → Type 0
SoundDb (ok d) = IsValid d
SoundDb (raise e) = Unit

IsValid-transfer : (db : Db) (from to : Cycle) → IsValid db → IsValid (transfer_waiting db from to)
unfolding transfer_waiting
IsValid-transfer db from to v =
    IsValidFrom-touch_cycle to.id _ (λ d. (refl, refl, refl))
      (IsValidFrom-SameCore (record { ops = refl; pointer = refl; cycles = refl; next = refl }) v)

IsValid-renew_stop :
    (db : Db) (c : Cycle) (why : String) (e g : ℕ)
    → IsValid db
    → active_cycle_id db ≡ some c.id
    → SoundDb (renew_stop db c why e g)
unfolding renew_stop
IsValid-renew_stop db c why e g v here = elim (Option-cases started.0) [
  | inl none' ↦ rw (none', renew_stop) tt
  | inr (i, found) ↦ elim (Option-cases (select (has_id i) started.1.cycles)) [
    | inl none' ↦ rw (found, none', renew_stop) tt
    | inr (to, row) ↦
        rw (found, row, renew_stop)
          (IsValidFrom-SameCore (SameCore-update_policy _ _ (λ q. refl) (λ q. refl))
            (IsValid-transfer started.1 c to valid))
  ]
]
  where
    freed : Db
    freed = update_policy drop_pointer (
        resolve_pending_actions (update_cycle c.id (decided_row e "renewed") db) e
          (action_eq stop_decision))

    started : Option ℕ × Db
    started = start_cycle freed stop c.due_at e (c.fixed_sequence + 1) g

    idle : IsIdle freed
    idle =
        IsIdle-update_policy drop_pointer _ (λ q h. h)
          (IsIdle-SameCore (SameCore-resolve _ e (action_eq stop_decision))
            (IsIdle-update_cycle c.id (decided_row e "renewed") (λ d. refl) (λ d. refl) here v))

    valid : IsValid started.1
    valid =
        IsValid-at_zero
          (IsValidFrom-start_cycle freed stop c.due_at e (c.fixed_sequence + 1) g idle)

renewed : (r : Result Db) (e : ℕ) → SoundDb r → Sound (after_renewal e r)
unfolding after_renewal
renewed (ok d) e s = s
renewed (raise err) e s = tt

Sound-renew :
    (db : Db) (at : ℕ) (why : String) (k : Key) (by : Option ℕ) (g : ℕ)
    → IsValid db
    → Sound (renew_manual_stop db at why k by g)
unfolding renew_manual_stop
Sound-renew db at why k by g v = elim (Bool-cases (blocked db g)) [
  | inl e ↦ rw e tt
  | inr e ↦ rw e (elim (Bool-cases (is_blank why)) [
    | inl e ↦ rw e tt
    | inr e ↦ rw e (elim (Option-cases (due_stop db)) [
      | inl e ↦ rw (e, renew_manual_stop) tt
      | inr (c, here) ↦
          rw (here, renew_manual_stop)
            (elim (Bool-cases (insert_event db (ev c)).1) [
              | inl e ↦ rw e (
                  renewed _ _ (
                    IsValid-renew_stop _ c why _ g (IsValidFrom-SameCore (same c) v)
                      ((same c).pointer ∙ due_stop-pointer db c here)))
              | inr e ↦ rw e (IsValidFrom-SameCore (same c) v)
            ])
    ])
  ])
]
  where
    ev : Cycle → NewEvent
    ev c = decision_event manual_stop_renewed at 0 k (manual_payload why (some c.id)) by g

    same : (c : Cycle) → SameCore db (insert_event db (ev c)).2
    same c = SameCore-insert_event db (ev c)

-- From a well-formed scope, each of the administrator's decisions about a stop raises an exception,
-- or leaves the scope well-formed.
pub manual_decisions-Sound :
    (db : Db) (at : ℕ) (why : String) (k : Key) (by : Option ℕ) (g : ℕ)
    → IsValid db
    → Sound (start_manual_stop db at why k by g)
      × Sound (clear_manual_stop db at why k by g)
      × Sound (renew_manual_stop db at why k by g)
      × Sound (reject_stop_suggestion db at why k by g)
manual_decisions-Sound db at why k by g v = (
  Sound-start db at why k by g v,
  Sound-clear db at why k by g v,
  Sound-renew db at why k by g v,
  Sound-reject db at why k by g v,
)
