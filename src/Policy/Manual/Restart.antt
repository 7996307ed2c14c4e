-- ===== src/Policy/Manual/Restart.antt =====
-- The end of clear_manual_stop: the reduction by one, and the normal cycle that may follow.
use qq_violation_bot.Prelude.{
  ℕ, ◌≡◌, refl, ◌∙◌, Bool, false, ◌&&◌, Option, some, String, arith, All-map, ◌==◌, leb, if-ind,
}
use qq_violation_bot.Policy.Types.{
  Db, Cycle, normal, stop_decision, zero_count, operation_limit, NoCycleReason, action_eq,
  is_terminal, is_normal, is_normal_or_slow, CycleType,
}
use qq_violation_bot.Policy.Count.{all_records, current_count}
use qq_violation_bot.Policy.Events.{
  NewEvent, insert_event, ensure_policy_state, resolve_pending_actions,
}
use qq_violation_bot.Policy.Cycles.{
  active_cycle_id, update_cycle, start_cycle, set_no_cycle, open_cycle, apply_reduction,
}
use qq_violation_bot.Policy.Invariant.{
  IsValid, IsIdle, Closed, IsIdle-SameCore, IsIdle-update_cycle, IsIdle-update_policy,
  cycles-update_policy,
}
use qq_violation_bot.Policy.Invariant.Keep.{
  SameCore-ensure, SameCore-resolve, active_cycle_id-apply_reduction, IsValidFrom-apply_reduction,
}
use qq_violation_bot.Policy.Replay.Clean.{business-update_policy}
use qq_violation_bot.Policy.Records.Apply.{business-ensure, OpenOf, OpenOf-start_cycle}
use qq_violation_bot.Policy.Manual.{clear_stop, restart_normal, decided_row, cleared_policy}

OpenOf-idle : (t : CycleType) (db : Db) → IsIdle db → OpenOf t db
OpenOf-idle t db v = All-map Closed _ _ (λ c h o. absurd (ground arith)) v.closed

OpenOf-restart_normal :
    (db : Db) (at e g : ℕ) → IsIdle db → OpenOf normal (restart_normal db at e g)
unfolding restart_normal
OpenOf-restart_normal db at e g v =
    if-ind (OpenOf normal) (current_count db.business == 0) (λ _. refused zero_count)
      (λ _.
        if-ind (OpenOf normal) (leb 5 (ensure_policy_state db).0.v102_operation_count)
          (λ _. refused operation_limit) (λ _. OpenOf-start_cycle _ normal at e 0 g idle))
  where
    idle : IsIdle (ensure_policy_state db).1
    idle = IsIdle-SameCore (SameCore-ensure db) v

    refused :
        (why : NoCycleReason) → OpenOf normal (set_no_cycle (ensure_policy_state db).1 why false)
    refused why = unfold set_no_cycle in rw cycles-update_policy (OpenOf-idle normal _ idle)

pub business-insert_event : (db : Db) (e : NewEvent) → (insert_event db e).2.business ≡ db.business
unfolding insert_event
business-insert_event db e = ground arith

business-set_no_cycle :
    (db : Db) (why : NoCycleReason) (tag : Bool) → (set_no_cycle db why tag).business ≡ db.business
unfolding set_no_cycle
business-set_no_cycle db why tag = business-update_policy _ db

business-open_cycle :
    (db : Db) (t : CycleType) (start level e sequence g : ℕ)
    → (open_cycle db t start level e sequence g).business ≡ db.business
unfolding open_cycle
business-open_cycle db t start level e sequence g =
    business-update_policy _ _ ∙ business-insert_event _ _

business-start_cycle :
    (db : Db) (t : CycleType) (start e sequence g : ℕ)
    → (start_cycle db t start e sequence g).1.business ≡ db.business
unfolding start_cycle
business-start_cycle db t start e sequence g =
    let (policy, db') = ensure_policy_state db in
    let kept = λ (r : Option ℕ × Db). r.1.business ≡ db.business in
    let same = business-ensure db in
    if-ind kept (is_terminal db'.business.status) (λ _. business-set_no_cycle _ _ _ ∙ same)
      (λ _.
        if-ind kept (leb 5 policy.v102_operation_count && is_normal_or_slow t)
          (λ _. business-set_no_cycle _ _ _ ∙ same)
          (λ _.
            if-ind kept (current_count db'.business == 0 && is_normal t)
              (λ _. business-set_no_cycle _ _ _ ∙ same)
              (λ _. business-open_cycle _ t start _ e sequence g ∙ same)))

business-restart_normal : (db : Db) (at e g : ℕ) → (restart_normal db at e g).business ≡ db.business
unfolding restart_normal
business-restart_normal db at e g =
    let kept = λ (d : Db). d.business ≡ db.business in
    let same = business-ensure db in
    if-ind kept (current_count db.business == 0) (λ _. business-set_no_cycle _ _ _ ∙ same)
      (λ _.
        if-ind kept (leb 5 (ensure_policy_state db).0.v102_operation_count)
          (λ _. business-set_no_cycle _ _ _ ∙ same)
          (λ _. business-start_cycle _ normal at e 0 g ∙ same))

business-resolve :
    (db : Db) (e : ℕ)
    → (resolve_pending_actions db e (action_eq stop_decision)).business ≡ db.business
unfolding resolve_pending_actions
business-resolve db e = business-update_policy _ _

module _ (db : Db) (c : Cycle) (at : ℕ) (why : String) (e g : ℕ) where
  -- A cleared stop leaves the count as its reduction by one leaves it.
  pub business-clear_stop :
      (clear_stop db c at why e g).business ≡ (apply_reduction db 1 all_records).1.business
  unfolding clear_stop update_cycle
  business-clear_stop =
      business-restart_normal _ at e g
      ∙ business-update_policy (cleared_policy why e) _
      ∙ business-resolve _ e

  pub OpenOf-clear_stop :
      IsValid db → active_cycle_id db ≡ some c.id → OpenOf normal (clear_stop db c at why e g)
  unfolding clear_stop
  OpenOf-clear_stop v here = OpenOf-restart_normal _ at e g (
      IsIdle-update_policy (cleared_policy why e) _ (λ p h. h)
        (IsIdle-SameCore (SameCore-resolve _ e (action_eq stop_decision)) (
          IsIdle-update_cycle c.id (decided_row e "manual_clear") (λ d. refl) (λ d. refl)
            (active_cycle_id-apply_reduction db 1 all_records ∙ here)
            (IsValidFrom-apply_reduction db 1 all_records v))))
