-- ===== src/Budget/Latest.antt =====
-- The context window of fit_context: the latest messages, within their limits.
use qq_violation_bot.Prelude.{
  ℕ, zero, suc, ◌+◌, ◌-◌, ◌≡◌, ◌≤◌, ◌<◌, take, ◌⊎◌, inl, inr, List, [], ◌∷◌, true, ◌&&◌, arith,
  length, drop, ltb, ltb→lt, length-drop, refl, sym, ap, ◌∙◌, if-ind,
}
use qq_violation_bot.Budget.Types.{Text, PromptBudget, RawPrompt}
use qq_violation_bot.Budget.Fit.{total_length}
use qq_violation_bot.Budget.Context.{
  Window, drop_messages, shrink, last_only, clip_all, clip_last, fit_context,
}
use qq_violation_bot.Budget.Window.{
  IsTail, IsTail-drop_messages, IsTail-shrink, shrink-done, last_only_short, clip_all_bound,
}

-- The parallel sequences of the raw context are of one length.
pub record IsAligned (raw : RawPrompt) : Type 0 where
  pub ids_length : length raw.raw_ids ≡ length raw.raw_context
  pub refs_length : length raw.raw_context_refs ≡ length raw.raw_context

-- The window holds what is left of the raw context after the removed messages; where that is one
-- message longer than the limit, it holds the beginning of that message.
abbrev pub HasTexts : RawPrompt → ℕ → Window → Type 0
HasTexts raw limit w =
    (w.messages ≡ drop w.removed raw.raw_context)
    ⊎ ((m : Text) × (drop w.removed raw.raw_context ≡ m ∷ [])
        × (limit < length m)
        × (w.messages ≡ take limit m ∷ []))

-- No message is removed needlessly: those above the limit on messages, and then one for as long as
-- what was left was above the limit on characters, but never the last one.
abbrev pub IsLeast : RawPrompt → PromptBudget → ℕ → Type 0
IsLeast raw budget removed =
    (removed ≡ length raw.raw_context - budget.context_messages)
    ⊎ (budget.context_chars < total_length (drop (removed - 1) raw.raw_context))
      × (removed < length raw.raw_context)

-- The latest messages under their ids and speakers, within the limits, and no fewer than these ask.
abbrev pub IsLatest : RawPrompt → PromptBudget → Window → Type 0
IsLatest raw budget w =
    (total_length w.messages ≤ budget.context_chars)
    × (w.removed + length w.messages ≡ length raw.raw_context)
    × (w.ids ≡ drop w.removed raw.raw_ids)
    × (w.refs ≡ drop w.removed raw.raw_context_refs)
    × HasTexts raw budget.context_chars w
    × IsLeast raw budget w.removed
    × (length w.messages ≤ budget.context_messages)

IsTail-count :
    (raw : RawPrompt) (w : Window)
    → IsTail raw w
    → w.removed + length w.messages ≡ length raw.raw_context
IsTail-count raw w h =
    omega (arith, ap length h.messages_tail, length-drop w.removed raw.raw_context, h.removed_bound)

-- What the loop removes: nothing, or a message whose text was too much with those after it.
shrink-removed :
    (raw : RawPrompt) (limit fuel : ℕ) (w : Window)
    → IsTail raw w
    → ((shrink limit fuel w).removed ≡ w.removed)
      ⊎ (limit < total_length (drop ((shrink limit fuel w).removed - 1) raw.raw_context))
        × (w.removed < (shrink limit fuel w).removed)
        × ((shrink limit fuel w).removed < length raw.raw_context)
unfolding shrink
shrink-removed raw limit zero w h = inl refl
shrink-removed raw limit (suc fuel) w h =
    if-ind
      (λ (r : Window).
        (r.removed ≡ w.removed)
        ⊎ (limit < total_length (drop (r.removed - 1) raw.raw_context))
          × (w.removed < r.removed)
          × (r.removed < length raw.raw_context))
      (ltb 1 (length w.messages) && ltb limit (total_length w.messages))
      (λ e.
        elim (shrink-removed raw limit fuel (drop_messages 1 w)
          (IsTail-drop_messages raw w 1 h (ground arith))) [
            | inl same ↦
                let back : (shrink limit fuel (drop_messages 1 w)).removed - 1 ≡ w.removed =
                  omega (arith, same) in
                inr (
                  rw (back, sym h.messages_tail) (ground arith),
                  omega (arith, same),
                  omega (arith, same, IsTail-count raw w h, two_left e),
                )
            | inr (above, later, left) ↦ inr (above, omega (arith, later), left)
          ])
      (λ e. inl refl)
  where
    two_left :
        (ltb 1 (length w.messages) && ltb limit (total_length w.messages)) ≡ true
        → 1 < length w.messages
    two_left e = ground arith

-- The beginning of the one message that is left.
clipped_one :
    (limit : ℕ) (vs : List Text)
    → length vs ≤ 1
    → limit < total_length vs
    → (m : Text) × (vs ≡ m ∷ [])
      × (limit < length m)
      × (clip_all limit (last_only vs) ≡ take limit m ∷ [])
clipped_one limit [] h k = absurd (omega (arith, k))
clipped_one limit (v ∷ []) h k = (v, refl, omega (arith, k), refl)
clipped_one limit (v ∷ u ∷ vs) h k = absurd (omega (arith, h))

-- Where more than the limit is left, one message is.
one_left :
    (limit : ℕ) (w : Window)
    → (length w.messages ≤ 1) ⊎ (total_length w.messages ≤ limit)
    → ltb limit (total_length w.messages) ≡ true
    → length w.messages ≤ 1
one_left limit w (inl h) e = h
one_left limit w (inr h) e = absurd (omega (arith, h, ltb→lt limit (total_length w.messages) e))

IsLatest-clip_last :
    (raw : RawPrompt) (budget : PromptBudget) (w : Window)
    → IsAligned raw
    → IsTail raw w
    → (length w.messages ≤ 1) ⊎ (total_length w.messages ≤ budget.context_chars)
    → IsLeast raw budget w.removed
    → length raw.raw_context - budget.context_messages ≤ w.removed
    → IsLatest raw budget (clip_last budget.context_chars w)
unfolding clip_last
IsLatest-clip_last raw budget w a h k least enough =
    let limit = budget.context_chars in
    let count = IsTail-count raw w h in
    if-ind (IsLatest raw budget) (ltb limit (total_length w.messages))
      (λ e.
        let one = one_left limit w k e in
        let clipped = clip_all_bound limit w.messages one in
        let (m, left, long, text) =
          clipped_one limit w.messages one (ltb→lt limit (total_length w.messages) e) in
        let short_ids : length w.ids ≤ 1 = omega (
          arith,
          ap length h.ids_tail,
          length-drop w.removed raw.raw_ids,
          a.ids_length,
          count,
          one,
        ) in
        let short_refs : length w.refs ≤ 1 = omega (
          arith,
          ap length h.refs_tail,
          length-drop w.removed raw.raw_context_refs,
          a.refs_length,
          count,
          one,
        ) in
        (
          clipped.0,
          omega (arith, clipped.2, count),
          last_only_short w.ids short_ids ∙ h.ids_tail,
          last_only_short w.refs short_refs ∙ h.refs_tail,
          inr (m, sym h.messages_tail ∙ left, long, text),
          least,
          omega (arith, clipped.2, count, enough),
        ))
      (λ e. (
        ground arith,
        count,
        h.ids_tail,
        h.refs_tail,
        inl h.messages_tail,
        least,
        omega (arith, count, enough),
      ))

-- The window after the loop, from one with the messages above the limit removed.
IsLeast-shrink :
    (budget : PromptBudget) (raw : RawPrompt) (w : Window)
    → IsTail raw w
    → w.removed ≡ length raw.raw_context - budget.context_messages
    → IsLeast raw budget (shrink budget.context_chars (length w.messages) w).removed
      × (length raw.raw_context - budget.context_messages
          ≤ (shrink budget.context_chars (length w.messages) w).removed)
IsLeast-shrink budget raw w h first =
    elim (shrink-removed raw budget.context_chars (length w.messages) w h) [
      | inl same ↦ (inl (same ∙ first), omega (arith, same, first))
      | inr (above, later, left) ↦ (inr (above, left), omega (arith, later, first))
    ]

-- Where the raw sequences are of one length, fit_context keeps the latest messages of the raw context
-- under their ids and speakers, at most `context_messages` of them with at most `context_chars`
-- characters. Their texts are unchanged, save that one message longer than `context_chars` is cut to
-- its beginning. The removed messages are those above `context_messages`, or a message is left and what
-- was left with the last of the removed ones was above `context_chars`.
pub fit_context-IsLatest :
    (budget : PromptBudget) (raw : RawPrompt)
    → IsAligned raw
    → IsLatest raw budget (fit_context budget raw)
unfolding fit_context
fit_context-IsLatest budget raw a =
    let all : Window = record {
      messages = raw.raw_context;
      ids = raw.raw_ids;
      refs = raw.raw_context_refs;
      removed = 0;
    } in
    let n = length raw.raw_context - budget.context_messages in
    let w = drop_messages n all in
    let whole : IsTail raw all = record {
      messages_tail = refl;
      ids_tail = refl;
      refs_tail = refl;
      removed_bound = omega arith;
    } in
    let limit = budget.context_chars in
    let fuel = length w.messages in
    let tail = IsTail-drop_messages raw all n whole (omega arith) in
    let (least, enough) = IsLeast-shrink budget raw w tail (omega arith) in
    IsLatest-clip_last raw budget (shrink limit fuel w) a (IsTail-shrink raw limit fuel w tail)
      (shrink-done limit fuel w (omega arith)) least enough
