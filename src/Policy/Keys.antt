-- ===== src/Policy/Keys.antt =====
-- UNIQUE(idempotency_key): equality of keys is decidable.
use mathlib.Core.Bool.{decide, decide_iff}
use native.Mathlib.Decide.{ℕ_discrete}
use text.Mathlib.Text.{◌==◌ as str_eq}
use text.Mathlib.TextEquality.{eq_iff}
use qq_violation_bot.Prelude.{String, Bool, Bool-cases, ◌≡◌, refl, true, inl, inr}
use qq_violation_bot.Policy.Types.{Key, ActionType}

String-discrete : Discrete String
String-discrete s t = elim (Bool-cases (str_eq s t)) [
  | inl same ↦ yes ((eq_iff s t).0 same)
  | inr other ↦ no (λ e. cc (other, (eq_iff s t).1 e))
]

ActionType-discrete : Discrete ActionType
ActionType-discrete = hlevel

pub Key-discrete : Discrete Key
unfolding String-discrete ActionType-discrete
Key-discrete = hlevel (ℕ_discrete, String-discrete, ActionType-discrete)

unfoldable pub key_eq : Key → Key → Bool
unfolding Key-discrete decide ℕ_discrete
key_eq a b = decide (Key-discrete a b)

pub key_eq_refl : (k : Key) → key_eq k k ≡ true
unfolding key_eq
key_eq_refl k = (decide_iff (Key-discrete k k)).1 refl

pub key_eq_sound : (a b : Key) → key_eq a b ≡ true → a ≡ b
unfolding key_eq
key_eq_sound a b h = (decide_iff (Key-discrete a b)).0 h
