-- ===== src/Delivery/Plan.antt =====
-- A plan is made once for an event.
use Prim.Native.Char.{Char}
use qq_violation_bot.Prelude.{
  ◌≡◌, refl, Bool, false, List, [], ◌∷◌, Result, ok, raise, Bool-cases, if◌then◌else◌, inl, inr,
}
use qq_violation_bot.Delivery.Ledger.{Part, PlanError, plan, is_valid_plan}

-- The rows of the event stay as they are, and are those that a plan returns.
abbrev pub Keeps :
    List Part → List (List Char) → Bool → Result PlanError (List Part × List Part) → Type 0
Keeps rows texts live (ok r) = (r.0 ≡ rows) × (r.1 ≡ (if live then rows else []))
Keeps rows texts live (raise e) = is_valid_plan texts ≡ false

-- For an event that has rows: a plan with other replies keeps the rows and returns them, or returns
-- none where the source message is gone, and raises only for an invalid list of replies.
pub plan-Keeps :
    (p : Part) (ps : List Part) (live no_reply : Bool) (texts : List (List Char))
    → Keeps (p ∷ ps) texts live (plan (p ∷ ps) live no_reply texts)
unfolding plan
plan-Keeps p ps live no_reply texts = elim (Bool-cases (is_valid_plan texts)) [
  | inr bad ↦ rw (bad, plan) bad
  | inl good ↦ elim (Bool-cases live) [
    | inl there ↦ rw (good, there, plan) (refl, refl)
    | inr gone ↦ rw (good, gone, plan) (refl, refl)
  ]
]
