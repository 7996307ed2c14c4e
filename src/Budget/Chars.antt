-- ===== src/Budget/Chars.antt =====
-- The characters that _clip, _fit_sequence and _trim_tail keep and remove.
use Prim.Native.Nat.{min}
use qq_violation_bot.Prelude.{ℕ, ◌+◌, ◌-◌, ◌≡◌, ◌≤◌, List, [], ◌∷◌, arith, length, length-take}
use qq_violation_bot.Budget.Types.{Text}
use qq_violation_bot.Budget.Fit.{total_length, clip, fit_sequence, trim_tail}

pub clip_chars : (v : Text) (n : ℕ) → length (clip v n).0 + (clip v n).1 ≡ length v
unfolding clip
clip_chars v n = ground (arith, length-take n v)

pub clip_bound : (v : Text) (n : ℕ) → length (clip v n).0 ≤ n
unfolding clip
clip_bound v n = ground (arith, length-take n v)

-- A sequence is cut exactly at the limit.
pub fit_sequence_kept :
    (vs : List Text) (n : ℕ) → total_length (fit_sequence vs n).0 ≡ min n (total_length vs)
unfolding fit_sequence
fit_sequence_kept [] n = omega arith
fit_sequence_kept (v ∷ vs) n = ground (arith, length-take n v, fit_sequence_kept vs (n - length v))

pub fit_sequence_chars :
    (vs : List Text) (n : ℕ)
    → total_length (fit_sequence vs n).0 + (fit_sequence vs n).2 ≡ total_length vs
unfolding fit_sequence
fit_sequence_chars [] n = omega arith
fit_sequence_chars (v ∷ vs) n =
    ground (arith, length-take n v, fit_sequence_chars vs (n - length v))

pub trim_tail_kept :
    (vs : List Text) (n : ℕ) → total_length (trim_tail vs n).0 ≡ total_length vs - n
unfolding trim_tail
trim_tail_kept [] n = omega arith
trim_tail_kept (v ∷ vs) n = ground (arith, fit_sequence_kept (v ∷ vs) (total_length (v ∷ vs) - n))

pub trim_tail_chars :
    (vs : List Text) (n : ℕ)
    → total_length (trim_tail vs n).0 + (trim_tail vs n).2 ≡ total_length vs
unfolding trim_tail
trim_tail_chars [] n = omega arith
trim_tail_chars (v ∷ vs) n = ground (arith, fit_sequence_chars (v ∷ vs) (total_length (v ∷ vs) - n))
