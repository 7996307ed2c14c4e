-- ===== src/Context/Limits.antt =====
-- How many messages are chosen, and how many of the bot's own.
use Prim.Native.Nat.{min}
use qq_violation_bot.Prelude.{
  ℕ, zero, suc, ◌≤◌, ◌≡◌, refl, subst, ◌∙◌, Bool, true, false, ◌||◌, Option, List, [], ◌∷◌, String,
  length, leb, leb→le, arith, if-ind, Bool-cases, inl, inr,
}
use qq_violation_bot.Context.Mask.{
  empty_mask, set_at, set_all, count_set, pick, length-set_at, length-set_all, length-empty_mask,
  count_empty, count_set-set_at, length-pick, SetFrom, SetFrom-length, SetFrom-set_at, count_full,
}
use qq_violation_bot.Context.Select.{
  ContextMessage, is_own, count_own, self_history, limit_self_history, add_group, add_groups,
  fill_latest, priority_indices, filtered, deduplicate, select_chat_context,
}

-- A mask of the right length with room in it.
abbrev Fits : ℕ → ℕ → List Bool → Type 0
Fits limit n m = (length m ≡ n) × (count_set m ≤ limit)

Fits-add_groups :
    (limit n : ℕ) (groups : List (List ℕ)) (m : List Bool)
    → Fits limit n m
    → Fits limit n (add_groups limit groups m)
unfolding add_groups
Fits-add_groups limit n [] m h = h
Fits-add_groups limit n (g ∷ gs) m h = Fits-add_groups limit n gs (add_group limit g m) (
    if-ind (Fits limit n) (leb (count_set (set_all g m)) limit)
      (λ room. (length-set_all g m ∙ h.0, leb→le _ limit room)) (λ _. h))

Fits-fill_latest :
    (limit n i : ℕ) (m : List Bool) → Fits limit n m → Fits limit n (fill_latest limit i m)
unfolding fill_latest
Fits-fill_latest limit n zero m h = h
Fits-fill_latest limit n (suc i) m h =
    if-ind (Fits limit n) (leb limit (count_set m)) (λ _. h)
      (λ room.
        Fits-fill_latest limit n i (set_at i m)
          (length-set_at i m ∙ h.0, ground (arith, room, count_set-set_at i m)))

full :
    (limit i : ℕ) (m : List Bool)
    → limit ≤ length m
    → SetFrom i m
    → limit ≤ count_set (fill_latest limit i m)
unfolding fill_latest
full limit zero m h set = omega (arith, count_full m set, h)
full limit (suc i) m h set =
    if-ind (λ (x : List Bool). limit ≤ count_set x) (leb limit (count_set m))
      (λ room. leb→le limit (count_set m) room)
      (λ _.
        full limit i (set_at i m) (omega (arith, length-set_at i m, h)) (SetFrom-set_at i m set))

-- The flags chosen among more than `limit` messages are exactly `limit`.
chosen :
    (limit : ℕ) (groups : List (List ℕ)) (xs : List ContextMessage)
    → limit ≤ length xs
    → length (pick (fill_latest limit (length xs) (add_groups limit groups (empty_mask xs))) xs)
      ≡ limit
chosen limit groups xs h =
    let start : Fits limit (length xs) (empty_mask xs) =
      (length-empty_mask xs, omega (arith, count_empty xs)) in
    let grouped = Fits-add_groups limit (length xs) groups (empty_mask xs) start in
    let mask = add_groups limit groups (empty_mask xs) in
    let fits = Fits-fill_latest limit (length xs) (length xs) mask grouped in
    let all_set : SetFrom (length xs) mask =
      subst (λ (n : ℕ). SetFrom n mask) grouped.0 (SetFrom-length mask) in
    omega (
      arith,
      length-pick (fill_latest limit (length xs) mask) xs fits.0,
      fits.1,
      full limit (length xs) mask (omega (arith, grouped.0, h)) all_set,
    )

count_own-pick :
    (quoted : Option String) (m : List Bool) (xs : List ContextMessage)
    → count_own quoted (pick m xs) ≤ count_own quoted xs
count_own-pick quoted [] xs = omega arith
count_own-pick quoted (b ∷ bs) [] = omega arith
count_own-pick quoted (true ∷ bs) (x ∷ xs) = omega (arith, count_own-pick quoted bs xs)
count_own-pick quoted (false ∷ bs) (x ∷ xs) = omega (arith, count_own-pick quoted bs xs)

-- The loop counts the own messages that it keeps, up to the limit.
self_history_counts :
    (limit : ℕ) (quoted : Option String) (xs : List ContextMessage)
    → (count_own quoted (self_history limit quoted xs).0 ≡ (self_history limit quoted xs).1)
      × ((self_history limit quoted xs).1 ≤ limit)
unfolding self_history
self_history_counts limit quoted [] = (refl, omega arith)
self_history_counts limit quoted (x ∷ xs) =
    let rest = self_history_counts limit quoted xs in
    let r = self_history limit quoted xs in
    elim (Bool-cases (is_own quoted x)) [
      | inr other ↦ rw other (ground (arith, rest.0, other), rest.1)
      | inl own ↦ elim (Bool-cases (leb limit r.1)) [
        | inl full_ ↦ rw (own, full_) rest
        | inr room ↦ rw (own, room) (ground (arith, rest.0, own), ground (arith, room))
      ]
    ]

module _ (mention_of : ContextMessage → Option String) (repeat_key : String → String) where
  nothing_left :
      (messages : List ContextMessage) (limit max_self : ℕ) (quoted : Option String)
      → (leb limit 0 || leb (length messages) 0) ≡ true
      → 0 ≡ min limit (length (filtered mention_of repeat_key messages max_self quoted))
  unfolding filtered limit_self_history self_history deduplicate
  nothing_left [] limit max_self quoted h = omega arith
  nothing_left (x ∷ xs) limit max_self quoted h =
      let none_ : limit ≡ 0 = ground (arith, h) in omega (arith, none_)

  -- The context has exactly `limit` messages, or all that the two filters leave where they are fewer.
  pub length-select_chat_context :
      (messages : List ContextMessage) (limit max_self : ℕ) (quoted user : Option String)
      → length (select_chat_context mention_of repeat_key messages limit max_self quoted user)
        ≡ min limit (length (filtered mention_of repeat_key messages max_self quoted))
  unfolding select_chat_context
  length-select_chat_context messages limit max_self quoted user =
      let rest = filtered mention_of repeat_key messages max_self quoted in
      if-ind (λ (l : List ContextMessage). length l ≡ min limit (length rest))
        (leb limit 0 || leb (length messages) 0)
        (λ empty_. nothing_left messages limit max_self quoted empty_)
        (λ _.
          if-ind (λ (l : List ContextMessage). length l ≡ min limit (length rest))
            (leb (length rest) limit) (λ few. ground (arith, few))
            (λ many.
              let more : limit ≤ length rest = ground (arith, many) in
              omega (arith, more, chosen limit (priority_indices rest quoted user) rest more)))

  -- Of the bot's messages that are not quoted, the context has at most `max_self_messages`.
  pub select_chat_context-own :
      (messages : List ContextMessage) (limit max_self : ℕ) (quoted user : Option String)
      → count_own quoted
          (select_chat_context mention_of repeat_key messages limit max_self quoted user)
        ≤ max_self
  unfolding select_chat_context filtered limit_self_history
  select_chat_context-own messages limit max_self quoted user =
      let rest = filtered mention_of repeat_key messages max_self quoted in
      let counts =
        self_history_counts max_self quoted (deduplicate mention_of repeat_key quoted messages).0 in
      let few : count_own quoted rest ≤ max_self = omega (arith, counts.0, counts.1) in
      if-ind (λ (l : List ContextMessage). count_own quoted l ≤ max_self)
        (leb limit 0 || leb (length messages) 0) (λ _. omega arith)
        (λ _.
          if-ind (λ (l : List ContextMessage). count_own quoted l ≤ max_self)
            (leb (length rest) limit) (λ _. few)
            (λ _. omega (arith, few, count_own-pick quoted _ rest)))
