-- ===== src/Budget/Window.antt =====
-- The context window of fit_context: what its loop and its last cut leave of the raw context.
pub mod Chars
use qq_violation_bot.Prelude.{
  ℕ, zero, suc, ◌+◌, ◌-◌, ◌≡◌, ◌≤◌, ◌<◌, take, ◌⊎◌, inl, inr, List, [], ◌∷◌, true, ◌&&◌, arith,
  length, drop, ltb, ltb→lt, length-take, length-drop, refl, sym, ap, ◌∙◌, if-ind,
}
use qq_violation_bot.Budget.Types.{Text, PromptBudget, RawPrompt}
use qq_violation_bot.Budget.Fit.{total_length}
use qq_violation_bot.Budget.Context.{
  Window, drop_messages, shrink, last_only, clip_all, clip_last, fit_context,
}

drop_nil {ℓ} : {A : Type ℓ} (n : ℕ) → drop {A = A} n [] ≡ []
drop_nil zero = refl
drop_nil (suc n) = refl

pub drop-drop {ℓ} : {A : Type ℓ} (m n : ℕ) (xs : List A) → drop m (drop n xs) ≡ drop (n + m) xs
drop-drop m zero xs = ap (λ k. drop k xs) (omega arith)
drop-drop m (suc n) [] = drop_nil m ∙ sym (drop_nil (suc n + m))
drop-drop m (suc n) (x ∷ xs) =
    let one_more : suc (n + m) ≡ suc n + m = omega arith in
    drop-drop m n xs ∙ ap (λ k. drop k (x ∷ xs)) one_more

pub total_length-drop : (n : ℕ) (vs : List Text) → total_length (drop n vs) ≤ total_length vs
total_length-drop zero vs = omega arith
total_length-drop (suc n) [] = omega arith
total_length-drop (suc n) (v ∷ vs) = omega (arith, total_length-drop n vs)

-- The window is what is left of the raw context after its first `removed` messages.
pub record IsTail (raw : RawPrompt) (w : Window) : Type 0 where
  pub messages_tail : w.messages ≡ drop w.removed raw.raw_context
  pub ids_tail : w.ids ≡ drop w.removed raw.raw_ids
  pub refs_tail : w.refs ≡ drop w.removed raw.raw_context_refs
  pub removed_bound : w.removed ≤ length raw.raw_context

pub IsTail-drop_messages :
    (raw : RawPrompt) (w : Window) (n : ℕ)
    → IsTail raw w
    → n ≤ length w.messages
    → IsTail raw (drop_messages n w)
IsTail-drop_messages raw w n h k = record {
  messages_tail = ap (drop n) h.messages_tail ∙ drop-drop n w.removed raw.raw_context;
  ids_tail = ap (drop n) h.ids_tail ∙ drop-drop n w.removed raw.raw_ids;
  refs_tail = ap (drop n) h.refs_tail ∙ drop-drop n w.removed raw.raw_context_refs;
  removed_bound =
      omega (
        arith,
        ap length h.messages_tail,
        length-drop w.removed raw.raw_context,
        k,
        h.removed_bound,
      );
}

pub IsTail-shrink :
    (raw : RawPrompt) (limit fuel : ℕ) (w : Window)
    → IsTail raw w
    → IsTail raw (shrink limit fuel w)
unfolding shrink
IsTail-shrink raw limit zero w h = h
IsTail-shrink raw limit (suc fuel) w h =
    if-ind (IsTail raw) (ltb 1 (length w.messages) && ltb limit (total_length w.messages))
      (λ e.
        IsTail-shrink raw limit fuel (drop_messages 1 w)
          (IsTail-drop_messages raw w 1 h (ground arith)))
      (λ e. h)

-- The loop ends within a round per message.
pub shrink-done :
    (limit fuel : ℕ) (w : Window)
    → length w.messages ≤ fuel
    → (length (shrink limit fuel w).messages ≤ 1)
      ⊎ (total_length (shrink limit fuel w).messages ≤ limit)
unfolding shrink
shrink-done limit zero w h = inl (omega (arith, h))
shrink-done limit (suc fuel) w h =
    if-ind (λ (r : Window). (length r.messages ≤ 1) ⊎ (total_length r.messages ≤ limit))
      (ltb 1 (length w.messages) && ltb limit (total_length w.messages))
      (λ e. shrink-done limit fuel (drop_messages 1 w) (omega (arith, length-drop 1 w.messages, h)))
      (λ e. ground arith)

pub last_only_short {ℓ} : {A : Type ℓ} (xs : List A) → length xs ≤ 1 → last_only xs ≡ xs
last_only_short [] h = refl
last_only_short (x ∷ []) h = refl
last_only_short (x ∷ y ∷ xs) h = absurd (omega (arith, h))

pub clip_all_bound :
    (limit : ℕ) (vs : List Text)
    → length vs ≤ 1
    → (total_length (clip_all limit (last_only vs)) ≤ limit)
      × (total_length (clip_all limit (last_only vs)) ≤ total_length vs)
      × (length (clip_all limit (last_only vs)) ≡ length vs)
clip_all_bound limit [] h = ground arith
clip_all_bound limit (v ∷ []) h = ground (arith, length-take limit v)
clip_all_bound limit (v ∷ u ∷ vs) h = absurd (omega (arith, h))

length-shrink :
    (limit fuel : ℕ) (w : Window) → length (shrink limit fuel w).messages ≤ length w.messages
unfolding shrink
length-shrink limit zero w = omega arith
length-shrink limit (suc fuel) w =
    if-ind (λ (r : Window). length r.messages ≤ length w.messages)
      (ltb 1 (length w.messages) && ltb limit (total_length w.messages))
      (λ e. omega (arith, length-shrink limit fuel (drop_messages 1 w), length-drop 1 w.messages))
      (λ e. omega arith)
