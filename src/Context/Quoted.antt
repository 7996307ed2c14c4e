-- ===== src/Context/Quoted.antt =====
-- The quoted message is chosen.
use qq_violation_bot.Prelude.{
  ℕ, zero, suc, ◌+◌, ◌≤◌, ◌≡◌, refl, subst, ap, sym, ◌∙◌, Bool, true, false, not, ◌&&◌, ◌||◌,
  Option, List, [], ◌∷◌, ◌++◌, map, String, length, leb, arith, if◌then◌else◌, if-ind, Bool-cases,
  inl, inr,
}
use qq_violation_bot.Context.Mask.{empty_mask, set_at, set_all, count_set, pick}
use qq_violation_bot.Context.Select.{
  ContextMessage, is_wanted, is_own, self_history, limit_self_history, add_group, add_groups,
  fill_latest, indices_of, as_group, priority_indices, filtered, deduplicate, select_chat_context,
  single_group, last_of, bot_groups, seen_spam, seen_long, mention_spam_signature,
  long_repeat_signature,
}

abbrev pub count_quoted : Option String → List ContextMessage → ℕ
count_quoted quoted [] = 0
count_quoted quoted (x ∷ xs) =
    (if is_wanted quoted x.message_id then 1 else 0) + count_quoted quoted xs

abbrev test_of : Option String → ContextMessage → Bool
test_of quoted x = is_wanted quoted x.message_id

-- The flags of the quoted messages are set.
abbrev Marked : Option String → List Bool → List ContextMessage → Type 0
Marked quoted m [] = Unit
Marked quoted [] (x ∷ xs) = is_wanted quoted x.message_id ≡ false × Marked quoted [] xs
Marked quoted (b ∷ bs) (x ∷ xs) =
    (is_wanted quoted x.message_id ≡ true → b ≡ true) × Marked quoted bs xs

Marked-set_at :
    (quoted : Option String) (i : ℕ) (m : List Bool) (xs : List ContextMessage)
    → Marked quoted m xs
    → Marked quoted (set_at i m) xs
Marked-set_at quoted i m [] h = tt
Marked-set_at quoted i [] (x ∷ xs) h = h
Marked-set_at quoted zero (b ∷ bs) (x ∷ xs) h = (λ _. refl, h.1)
Marked-set_at quoted (suc i) (b ∷ bs) (x ∷ xs) h = (h.0, Marked-set_at quoted i bs xs h.1)

Marked-set_all :
    (quoted : Option String) (is : List ℕ) (m : List Bool) (xs : List ContextMessage)
    → Marked quoted m xs
    → Marked quoted (set_all is m) xs
Marked-set_all quoted [] m xs h = h
Marked-set_all quoted (i ∷ is) m xs h =
    Marked-set_all quoted is (set_at i m) xs (Marked-set_at quoted i m xs h)

Marked-add_groups :
    (quoted : Option String) (limit : ℕ) (groups : List (List ℕ)) (m : List Bool)
    (xs : List ContextMessage)
    → Marked quoted m xs
    → Marked quoted (add_groups limit groups m) xs
unfolding add_groups
Marked-add_groups quoted limit [] m xs h = h
Marked-add_groups quoted limit (g ∷ gs) m xs h =
    Marked-add_groups quoted limit gs (add_group limit g m) xs (
      if-ind (λ (n : List Bool). Marked quoted n xs) (leb (count_set (set_all g m)) limit)
        (λ _. Marked-set_all quoted g m xs h) (λ _. h))

Marked-fill_latest :
    (quoted : Option String) (limit i : ℕ) (m : List Bool) (xs : List ContextMessage)
    → Marked quoted m xs
    → Marked quoted (fill_latest limit i m) xs
unfolding fill_latest
Marked-fill_latest quoted limit zero m xs h = h
Marked-fill_latest quoted limit (suc i) m xs h =
    if-ind (λ (n : List Bool). Marked quoted n xs) (leb limit (count_set m)) (λ _. h)
      (λ _. Marked-fill_latest quoted limit i (set_at i m) xs (Marked-set_at quoted i m xs h))

-- Marked messages are picked.
Marked-pick :
    (quoted : Option String) (m : List Bool) (xs : List ContextMessage)
    → Marked quoted m xs
    → count_quoted quoted (pick m xs) ≡ count_quoted quoted xs
Marked-pick quoted [] [] h = refl
Marked-pick quoted [] (x ∷ xs) h = ground (arith, h.0, Marked-pick quoted [] xs h.1)
Marked-pick quoted (b ∷ bs) [] h = refl
Marked-pick quoted (true ∷ bs) (x ∷ xs) h = omega (arith, Marked-pick quoted bs xs h.1)
Marked-pick quoted (false ∷ bs) (x ∷ xs) h = elim (Bool-cases (is_wanted quoted x.message_id)) [
  | inl yes_ ↦ let wrong = h.0 yes_ in absurd (cc)
  | inr no_ ↦ rw no_ (omega (arith, Marked-pick quoted bs xs h.1))
]

indices_of-suc :
    (test : ContextMessage → Bool) (k : ℕ) (xs : List ContextMessage)
    → indices_of test (suc k) xs ≡ map (λ i. suc i) (indices_of test k xs)
indices_of-suc test k [] = refl
indices_of-suc test k (x ∷ xs) = elim (Bool-cases (test x)) [
  | inl yes_ ↦ rw yes_ (ap (λ l. suc k ∷ l) (indices_of-suc test (suc k) xs))
  | inr no_ ↦ rw no_ (indices_of-suc test (suc k) xs)
]

set_all-suc :
    (is : List ℕ) (b : Bool) (m : List Bool)
    → set_all (map (λ i. suc i) is) (b ∷ m) ≡ b ∷ set_all is m
set_all-suc [] b m = refl
set_all-suc (i ∷ is) b m = set_all-suc is b (set_at i m)

-- The flags of the quoted messages, and no others.
abbrev quoted_mask : Option String → List ContextMessage → List Bool
quoted_mask quoted xs = set_all (indices_of (test_of quoted) 0 xs) (empty_mask xs)

quoted_mask_step :
    (quoted : Option String) (x : ContextMessage) (xs : List ContextMessage)
    → quoted_mask quoted (x ∷ xs) ≡ is_wanted quoted x.message_id ∷ quoted_mask quoted xs
quoted_mask_step quoted x xs = elim (Bool-cases (is_wanted quoted x.message_id)) [
  | inl yes_ ↦
      rw (yes_, indices_of-suc (test_of quoted) 0 xs)
        (set_all-suc (indices_of (test_of quoted) 0 xs) true (empty_mask xs))
  | inr no_ ↦
      rw (no_, indices_of-suc (test_of quoted) 0 xs)
        (set_all-suc (indices_of (test_of quoted) 0 xs) false (empty_mask xs))
]

Marked-quoted_mask :
    (quoted : Option String) (xs : List ContextMessage) → Marked quoted (quoted_mask quoted xs) xs
Marked-quoted_mask quoted [] = tt
Marked-quoted_mask quoted (x ∷ xs) =
    subst (λ (m : List Bool). Marked quoted m (x ∷ xs)) (sym (quoted_mask_step quoted x xs))
      (λ h. h, Marked-quoted_mask quoted xs)

count_set-quoted_mask :
    (quoted : Option String) (xs : List ContextMessage)
    → count_set (quoted_mask quoted xs) ≡ count_quoted quoted xs
count_set-quoted_mask quoted [] = refl
count_set-quoted_mask quoted (x ∷ xs) =
    ap count_set (quoted_mask_step quoted x xs)
    ∙ ap (λ n. (if is_wanted quoted x.message_id then 1 else 0) + n)
        (count_set-quoted_mask quoted xs)

-- The quoted group goes in first.
first_group :
    (limit : ℕ) (is : List ℕ) (groups : List (List ℕ)) (m : List Bool)
    → add_groups limit (as_group is ++ groups) m ≡ add_groups limit groups (add_group limit is m)
unfolding add_groups
first_group limit [] groups m =
    ap (add_groups limit groups)
      (if-ind (λ (n : List Bool). m ≡ n) (leb (count_set m) limit) (λ _. refl) (λ _. refl))
first_group limit (i ∷ is) groups m = refl

count_quoted-self_history :
    (limit : ℕ) (quoted : Option String) (xs : List ContextMessage)
    → count_quoted quoted (self_history limit quoted xs).0 ≡ count_quoted quoted xs
unfolding self_history
count_quoted-self_history limit quoted [] = refl
count_quoted-self_history limit quoted (x ∷ xs) =
    let rest = count_quoted-self_history limit quoted xs in
    let r = self_history limit quoted xs in
    elim (Bool-cases (is_own quoted x)) [
      | inr other ↦ rw other (omega (arith, rest))
      | inl own ↦
          let not_quoted : is_wanted quoted x.message_id ≡ false = ground (arith, own) in
          elim (Bool-cases (leb limit r.1)) [
            | inl full ↦ rw (own, full, not_quoted) (omega (arith, rest))
            | inr room ↦ rw (own, room, not_quoted) (omega (arith, rest))
          ]
    ]

module _ (mention_of : ContextMessage → Option String) (repeat_key : String → String) where
  count_quoted-deduplicate :
      (quoted : Option String) (xs : List ContextMessage)
      → count_quoted quoted (deduplicate mention_of repeat_key quoted xs).0 ≡ count_quoted quoted xs
  unfolding deduplicate
  count_quoted-deduplicate quoted [] = refl
  count_quoted-deduplicate quoted (x ∷ xs) =
      let rest = count_quoted-deduplicate quoted xs in
      let r = deduplicate mention_of repeat_key quoted xs in
      let Kept : List ContextMessage × List String × List (String × String) → Type 0 =
        λ s. count_quoted quoted s.0 ≡ count_quoted quoted (x ∷ xs) in
      if-ind Kept
        (not (is_wanted quoted x.message_id)
          && (seen_spam mention_of repeat_key (mention_spam_signature mention_of repeat_key x) r.1
              || seen_long mention_of repeat_key (long_repeat_signature mention_of repeat_key x)
                  r.2))
        (λ dropped.
          let not_quoted : is_wanted quoted x.message_id ≡ false = ground (arith, dropped) in
          rw not_quoted (omega (arith, rest)))
        (λ _. omega (arith, rest))

  nothing_quoted :
      (quoted : Option String) (messages : List ContextMessage) (limit : ℕ)
      → count_quoted quoted messages ≤ limit
      → (leb limit 0 || leb (length messages) 0) ≡ true
      → 0 ≡ count_quoted quoted messages
  nothing_quoted quoted [] limit h e = refl
  nothing_quoted quoted (x ∷ xs) limit h e =
      let none_ : limit ≡ 0 = ground (arith, e) in omega (arith, none_, h)

  Marked-priority :
      (limit : ℕ) (quoted user : Option String) (xs : List ContextMessage)
      → count_quoted quoted xs ≤ limit
      → Marked quoted (add_groups limit (priority_indices xs quoted user) (empty_mask xs)) xs
  unfolding priority_indices
  Marked-priority limit quoted user xs h =
      let is = indices_of (test_of quoted) 0 xs in
      let others =
        single_group (last_of (indices_of (λ x. is_wanted user x.user_id) 0 xs))
        ++ bot_groups xs 0 xs in
      let room : leb (count_set (set_all is (empty_mask xs))) limit ≡ true =
        ground (arith, count_set-quoted_mask quoted xs, h) in
      let marked : Marked quoted (add_group limit is (empty_mask xs)) xs =
        rw room (Marked-quoted_mask quoted xs) in
      subst (λ (m : List Bool). Marked quoted m xs)
        (sym (first_group limit is others (empty_mask xs)))
        (Marked-add_groups quoted limit others (add_group limit is (empty_mask xs)) xs marked)

  -- All the messages under the quoted id are in the context, where there are no more than `limit`.
  pub select_chat_context-quoted :
      (messages : List ContextMessage) (limit max_self : ℕ) (quoted user : Option String)
      → count_quoted quoted messages ≤ limit
      → count_quoted quoted
          (select_chat_context mention_of repeat_key messages limit max_self quoted user)
        ≡ count_quoted quoted messages
  unfolding select_chat_context filtered limit_self_history
  select_chat_context-quoted messages limit max_self quoted user h =
      let rest = filtered mention_of repeat_key messages max_self quoted in
      let all_ : count_quoted quoted rest ≡ count_quoted quoted messages =
        count_quoted-self_history max_self quoted
          (deduplicate mention_of repeat_key quoted messages).0
        ∙ count_quoted-deduplicate quoted messages in
      let Kept : List ContextMessage → Type 0 =
        λ l. count_quoted quoted l ≡ count_quoted quoted messages in
      if-ind Kept (leb limit 0 || leb (length messages) 0)
        (λ empty_. nothing_quoted quoted messages limit h empty_)
        (λ _.
          if-ind Kept (leb (length rest) limit) (λ _. all_)
            (λ _.
              Marked-pick quoted _ rest (
                Marked-fill_latest quoted limit (length rest) _ rest
                  (Marked-priority limit quoted user rest (omega (arith, all_, h))))
              ∙ all_))
