-- ===== src/Policy/Replay/Clean.antt =====
-- What a reset leaves.
use qq_violation_bot.Prelude.{
  ℕ, ◌≡◌, refl, sym, ap, subst, ◌∙◌, ◌⊎◌, inl, inr, Bool, true, false, not, ◌&&◌, some, List, [],
  ◌∷◌, arith, All, update, ◌==◌, if◌then◌else◌, if-ind, Bool-cases,
}
use qq_violation_bot.Policy.Types.{Db, Policy, Business, Event, EventType, Pending, is_pending}
use qq_violation_bot.Policy.Count.{all_records, sync_count_state, current_count}
use qq_violation_bot.Policy.Events.{ensure_policy_state, update_policy, is_review}
use qq_violation_bot.Policy.Invariant.{
  IsValid, IsIdle, op_count, Closed, Rising-update, IsIdle-SameCore, IsValidFrom-SameCore,
  SameCore-update_policy, cycles-update_policy, next_cycle-update_policy,
}
use qq_violation_bot.Policy.Invariant.Keep.{SameCore-ensure, policy-ensure}
use qq_violation_bot.Policy.Replay.{
  is_replay_input, is_kept_type, is_superseded, supersede_event, supersede_cycle, cancel_pending,
  reset_policy, supersede_rows, no_count, reset_member_group_projection, is_input, inputs_of,
}

-- An effective event is the trigger, or an original one of a kept type.
abbrev pub Original : ℕ → Event → Type 0
Original trigger e =
    e.is_effective ≡ true
    → ((e.id == trigger) ≡ true) ⊎ ((e.replay_generation ≡ 0) × (is_kept_type e.event_type ≡ true))

abbrev pub OnlyReview : Pending → Type 0
OnlyReview p = is_pending p.status ≡ true → is_review p.action_type ≡ true

pub record IsReset (db : Db) (trigger : ℕ) (db' : Db) : Type 0 where
  pub idle : IsIdle db'
  pub operations : op_count db' ≡ 0
  pub status : db'.business.status ≡ (ensure_policy_state db).0.baseline_status
  pub locked : db'.business.locked ≡ (ensure_policy_state db).0.baseline_locked
  pub deducted : db'.business.deduct_count ≡ (ensure_policy_state db).0.baseline_deduct_count
  pub original : All (Original trigger) db'.events
  pub reviews : All OnlyReview db'.pendings
  pub inputs : (watermark : ℕ) → inputs_of watermark db'.events ≡ inputs_of watermark db.events

is_kept_input : (t : EventType) → is_replay_input t ≡ true → is_kept_type t ≡ true
is_kept_input t h = ground arith

-- An UPDATE that meets no input leaves the inputs.
inputs-update :
    (watermark trigger : ℕ) (es : List Event)
    → inputs_of watermark (update (is_superseded trigger) (supersede_event trigger) es)
      ≡ inputs_of watermark es
unfolding inputs_of update
inputs-update watermark trigger [] = refl
inputs-update watermark trigger (e ∷ es) =
    let rest = inputs-update watermark trigger es in
    elim (Bool-cases (is_superseded trigger e)) [
      | inr other ↦ rw (other, rest) refl
      | inl hit ↦
          let old : is_input watermark e ≡ false =
            ground (arith, hit, is_kept_input e.event_type) in
          let new : is_input watermark (supersede_event trigger e) ≡ false = ground arith in
          rw (hit, rest, old, new) refl
    ]

Original-supersede_event :
    (trigger : ℕ) (e : Event)
    → Original trigger (if is_superseded trigger e then supersede_event trigger e else e)
Original-supersede_event trigger e = elim (Bool-cases (is_superseded trigger e)) [
  | inl hit ↦ rw hit (λ h. absurd (cc))
  | inr other ↦ rw other (λ h. elim (Bool-cases (e.id == trigger)) [
    | inl at ↦ inl at
    | inr away ↦ inr (ground (arith, other, away), ground (arith, other, away))
  ])
]

OnlyReview-cancel_pending :
    (a : Pending)
    → OnlyReview
        (if is_pending a.status && not (is_review a.action_type) then cancel_pending a else a)
OnlyReview-cancel_pending a =
    elim (Bool-cases (is_pending a.status && not (is_review a.action_type))) [
      | inl hit ↦ rw hit (λ h. absurd (cc))
      | inr other ↦ rw other (λ h. ground (arith, other, h))
    ]

All-true :
    {A : Type 0} (P : A → Type 0) (test : A → Bool) (f : A → A) (rs : List A)
    → ((r : A) → P (if test r then f r else r))
    → All P (update test f rs)
unfolding update
All-true P test f [] h = tt
All-true P test f (r ∷ rs) h = (h r, All-true P test f rs h)

module _ (f : Policy → Policy) (db : Db) where
  events-update_policy : (update_policy f db).events ≡ db.events
  unfolding update_policy
  events-update_policy = ground arith

  pendings-update_policy : (update_policy f db).pendings ≡ db.pendings
  unfolding update_policy
  pendings-update_policy = ground arith

  pub business-update_policy : (update_policy f db).business ≡ db.business
  unfolding update_policy
  business-update_policy = ground arith

events-ensure : (db : Db) → (ensure_policy_state db).1.events ≡ db.events
unfolding ensure_policy_state
events-ensure db = ground arith

op_count-reset :
    (db : Db) (p : Policy) → db.policy ≡ some p → op_count (update_policy reset_policy db) ≡ 0
unfolding update_policy
op_count-reset db p e = rw e refl

IsReset-no_count :
    (db : Db) (trigger : ℕ) (db' : Db)
    → IsReset db trigger db'
    → IsReset db trigger (update_policy no_count db')
IsReset-no_count db trigger db' v =
    let same = SameCore-update_policy no_count db' (λ p. refl) (λ p. refl) in
    record {
      idle = IsIdle-SameCore same v.idle;
      operations = same.ops ∙ v.operations;
      status = ap (λ (b : Business). b.status) (business-update_policy no_count db') ∙ v.status;
      locked = ap (λ (b : Business). b.locked) (business-update_policy no_count db') ∙ v.locked;
      deducted =
          ap (λ (b : Business). b.deduct_count) (business-update_policy no_count db') ∙ v.deducted;
      original =
          subst (All (Original trigger)) (sym (events-update_policy no_count db')) v.original;
      reviews = subst (All OnlyReview) (sym (pendings-update_policy no_count db')) v.reviews;
      inputs = λ w. ap (inputs_of w) (events-update_policy no_count db') ∙ v.inputs w;
    }

IsReset-rows :
    (db : Db) (trigger : ℕ)
    → IsValid db
    → IsReset db trigger (
        sync_count_state
          (update_policy reset_policy
            (supersede_rows (ensure_policy_state db).1 (ensure_policy_state db).0 trigger))
          all_records)
unfolding sync_count_state
IsReset-rows db trigger v =
    let (p, db₁) = ensure_policy_state db in
    let rows = supersede_rows db₁ p trigger in
    let ops : op_count (update_policy reset_policy rows) ≡ 0 =
      op_count-reset rows p (policy-ensure db) in
    let v₁ = IsValidFrom-SameCore (SameCore-ensure db) v in
    let original : All (Original trigger) rows.events =
      All-true (Original trigger) (is_superseded trigger) (supersede_event trigger) db₁.events
        (Original-supersede_event trigger) in
    let reviews : All OnlyReview rows.pendings =
      All-true OnlyReview _ cancel_pending db₁.pendings OnlyReview-cancel_pending in
    record {
      idle = record {
        limit = rw ops (omega arith);
        closed =
            subst (All Closed) (sym (cycles-update_policy reset_policy rows))
              (All-true Closed (λ c. true) supersede_cycle db₁.cycles (λ c. refl));
        ids =
            rw (cycles-update_policy reset_policy rows, next_cycle-update_policy reset_policy rows)
              (Rising-update 0 db₁.next_cycle (λ c. true) supersede_cycle db₁.cycles (λ c. refl)
                v₁.ids);
      };
      operations = ops;
      status = ap (λ (b : Business). b.status) (business-update_policy reset_policy rows);
      locked = ap (λ (b : Business). b.locked) (business-update_policy reset_policy rows);
      deducted = ap (λ (b : Business). b.deduct_count) (business-update_policy reset_policy rows);
      original =
          subst (All (Original trigger)) (sym (events-update_policy reset_policy rows)) original;
      reviews = subst (All OnlyReview) (sym (pendings-update_policy reset_policy rows)) reviews;
      inputs = λ w.
          ap (inputs_of w) (events-update_policy reset_policy rows)
          ∙ inputs-update w trigger db₁.events
          ∙ ap (inputs_of w) (events-ensure db);
    }

-- The reset of a well-formed scope for a replay leaves: no open cycle, no operation, and the status and
-- the deductions of the baseline; no effective event but the trigger and the original ones of the kept
-- types; no pending action but the reviews. The inputs that the replay will read are all there.
pub reset_member_group_projection-IsReset :
    (db : Db) (trigger : ℕ)
    → IsValid db
    → IsReset db trigger (reset_member_group_projection db trigger)
unfolding reset_member_group_projection
reset_member_group_projection-IsReset db trigger v =
    let (p, db₁) = ensure_policy_state db in
    let db₂ =
      sync_count_state (update_policy reset_policy (supersede_rows db₁ p trigger)) all_records in
    if-ind (IsReset db trigger) (current_count db₂.business == 0)
      (λ _. IsReset-no_count db trigger db₂ (IsReset-rows db trigger v))
      (λ _. IsReset-rows db trigger v)
