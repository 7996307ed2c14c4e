-- ===== src/Policy/Reduction.antt =====
-- What _apply_reduction does to the counts.
use qq_violation_bot.Prelude.{
  ℕ, ◌+◌, ◌-◌, ◌≤◌, ◌<◌, ◌≡◌, refl, some, arith, ◌⊎◌, ◌==◌, if◌then◌else◌,
}
use qq_violation_bot.Policy.Types.{Db, Policy}
use qq_violation_bot.Policy.Count.{
  Cutoff, sync_count_state, effective_total, baseline_adjustment, current_count,
}
use qq_violation_bot.Policy.Events.{ensure_policy_state}
use qq_violation_bot.Policy.Cycles.{apply_reduction, record_reduction, reduction_amount}
use qq_violation_bot.Policy.Invariant.{op_count}

module _ (db : Db) (p : Policy) (has : db.policy ≡ some p) (n : ℕ) (cut : Cutoff) where
  -- The count that the reduction starts from: the effective total less what was deducted.
  unfoldable pub count_before : ℕ
  count_before = effective_total db cut - db.business.deduct_count

  pub before_lem : count_before ≡ effective_total db cut - db.business.deduct_count
  unfolding count_before
  before_lem = refl

  amount : ℕ
  amount = reduction_amount n (current_count (sync_count_state db cut).business) p

  reduced : Db
  reduced =
      if amount == 0
      then sync_count_state db cut
      else record_reduction (sync_count_state db cut) amount

  ensured : ensure_policy_state (sync_count_state db cut) ≡ (p, sync_count_state db cut)
  unfolding ensure_policy_state sync_count_state
  ensured = rw has

  apply_reduction_lem : apply_reduction db n cut ≡ (amount, sync_count_state reduced cut)
  unfolding apply_reduction amount reduced
  apply_reduction_lem = rw (ensured, apply_reduction)

  total-reduced : effective_total reduced cut ≡ effective_total db cut
  unfolding reduced record_reduction effective_total baseline_adjustment sync_count_state
  total-reduced = ground arith

  deducted : reduced.business.deduct_count ≡ db.business.deduct_count + amount
  unfolding reduced record_reduction sync_count_state
  deducted = ground arith

  counted : op_count reduced ≡ op_count db + (if amount == 0 then 0 else 1)
  unfolding reduced record_reduction sync_count_state
  counted = ground arith

  made :
      (amount ≡ n) × (n ≤ count_before) × (op_count db < 5)
      ⊎ (amount ≡ 0) × ((count_before < n) ⊎ (5 ≤ op_count db))
  unfolding amount reduction_amount sync_count_state count_before
  made = ground arith

  amount-le : amount ≤ count_before
  unfolding amount reduction_amount sync_count_state count_before
  amount-le = ground arith

  -- On a scope with a policy row, a reduction of `n` is made whole or not at all: it is made exactly
  -- when the count is at least `n` and fewer than five operations are recorded. The deductions grow
  -- by what is applied, the current count falls by it, and an operation is recorded when it is not 0.
  pub apply_reduction_exact :
      (((apply_reduction db n cut).0 ≡ n) × (n ≤ count_before) × (op_count db < 5)
        ⊎ ((apply_reduction db n cut).0 ≡ 0) × ((count_before < n) ⊎ (5 ≤ op_count db)))
      × ((apply_reduction db n cut).1.business.deduct_count
          ≡ db.business.deduct_count + (apply_reduction db n cut).0)
      × (current_count (apply_reduction db n cut).1.business + (apply_reduction db n cut).0
          ≡ count_before)
      × (op_count (apply_reduction db n cut).1
          ≡ op_count db + (if (apply_reduction db n cut).0 == 0 then 0 else 1))
  unfolding sync_count_state
  apply_reduction_exact =
      rw apply_reduction_lem
        (made, deducted, omega (arith, total-reduced, deducted, amount-le, before_lem), counted)
