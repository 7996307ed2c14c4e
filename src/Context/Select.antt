-- ===== src/Context/Select.antt =====
-- context.py. The signatures' texts come from regular expressions and Unicode tables: `mention_of` is
-- what _mention_spam_signature finds in a message that is no reply and has no image, `repeat_key` is
-- _repeat_key. A text that may be missing is none where it is missing.
use Prim.Native.String.{count as chars}
use text.Mathlib.Text.{◌==◌ as str_eq}
use qq_violation_bot.Prelude.{
  ℕ, zero, suc, ◌+◌, ◌*◌, Bool, false, not, ◌&&◌, ◌||◌, Option, none, some, List, [], ◌∷◌, ◌++◌,
  String, length, leb, ltb, if◌then◌else◌,
}
use qq_violation_bot.Context.Mask.{empty_mask, set_at, set_all, count_set, pick}

pub record ContextMessage : Type 0 where
  pub message_id : String
  pub user_id : String
  pub is_bot : Bool
  pub reply_message_id : Option String
  pub has_images : Bool
  pub text : String

-- min and max of context_candidate_limit.
unfoldable pub context_candidate_limit : ℕ → ℕ
context_candidate_limit zero = 0
context_candidate_limit (suc n) =
    let wanted = if leb (suc n * 2) (suc n + 10) then suc n + 10 else suc n * 2 in
    if leb 120 wanted then 120 else wanted

abbrev pub is_text : Option String → Bool
is_text none = false
is_text (some t) = not (str_eq t "")

-- bool(wanted_id and value == wanted_id)
abbrev pub is_wanted : Option String → String → Bool
is_wanted none value = false
is_wanted (some w) value = not (str_eq w "") && str_eq value w

abbrev pub has_text : String → List String → Bool
has_text t [] = false
has_text t (u ∷ us) = str_eq t u || has_text t us

abbrev pub has_pair : String × String → List (String × String) → Bool
has_pair t [] = false
has_pair t (u ∷ us) = (str_eq t.0 u.0 && str_eq t.1 u.1) || has_pair t us

abbrev pub is_plain : ContextMessage → Bool
is_plain item = not (is_text item.reply_message_id) && not item.has_images

-- `item.is_bot and not quoted`
abbrev pub is_own : Option String → ContextMessage → Bool
is_own quoted item = item.is_bot && not (is_wanted quoted item.message_id)

abbrev pub count_own : Option String → List ContextMessage → ℕ
count_own quoted [] = 0
count_own quoted (x ∷ xs) = (if is_own quoted x then 1 else 0) + count_own quoted xs

-- What the loop over the reversed messages has: the messages kept and how many of them are own.
abbrev pub keep_own :
    ℕ → Option String → ContextMessage → List ContextMessage × ℕ → List ContextMessage × ℕ
keep_own limit quoted x (kept, own) =
    if is_own quoted x
    then (if leb limit own then (kept, own) else (x ∷ kept, suc own))
    else (x ∷ kept, own)

unfoldable pub self_history : ℕ → Option String → List ContextMessage → List ContextMessage × ℕ
self_history limit quoted [] = ([], 0)
self_history limit quoted (x ∷ xs) = keep_own limit quoted x (self_history limit quoted xs)

unfoldable pub limit_self_history : ℕ → Option String → List ContextMessage → List ContextMessage
limit_self_history limit quoted xs = (self_history limit quoted xs).0

abbrev pub indices_of : (ContextMessage → Bool) → ℕ → List ContextMessage → List ℕ
indices_of test i [] = []
indices_of test i (x ∷ xs) =
    let rest = indices_of test (suc i) xs in if test x then i ∷ rest else rest

abbrev pub last_of : List ℕ → Option ℕ
last_of [] = none
last_of (i ∷ is) = let rest = last_of is in elim rest [ none ↦ some i | some j ↦ some j ]

abbrev pub as_group : List ℕ → List (List ℕ)
as_group [] = []
as_group (i ∷ is) = (i ∷ is) ∷ []

abbrev pub single_group : Option ℕ → List (List ℕ)
single_group none = []
single_group (some i) = (i ∷ []) ∷ []

-- message_indices.get(item.reply_message_id or ""): the last message of that id.
abbrev pub id_or_empty : Option String → String
id_or_empty none = ""
id_or_empty (some t) = t

abbrev pub trigger_of : List ContextMessage → ContextMessage → List ℕ
trigger_of xs item =
    elim (last_of
      (indices_of (λ x. str_eq x.message_id (id_or_empty item.reply_message_id)) 0 xs)) [
        | none ↦ []
        | some i ↦ i ∷ []
      ]

-- The bot's messages from the last one on, each with the message that it answers.
unfoldable pub bot_groups : List ContextMessage → ℕ → List ContextMessage → List (List ℕ)
bot_groups all i [] = []
bot_groups all i (x ∷ xs) =
    let rest = bot_groups all (suc i) xs in
    if x.is_bot then rest ++ (i ∷ trigger_of all x) ∷ [] else rest

unfoldable pub priority_indices :
    List ContextMessage → Option String → Option String → List (List ℕ)
priority_indices xs quoted user =
    as_group (indices_of (λ x. is_wanted quoted x.message_id) 0 xs)
    ++ (single_group (last_of (indices_of (λ x. is_wanted user x.user_id) 0 xs))
        ++ bot_groups xs 0 xs)

-- A group goes in whole where there is room: len(kept) + len(additions) is the size of the union.
abbrev pub add_group : ℕ → List ℕ → List Bool → List Bool
add_group limit group m = let m' = set_all group m in if leb (count_set m') limit then m' else m

unfoldable pub add_groups : ℕ → List (List ℕ) → List Bool → List Bool
add_groups limit [] m = m
add_groups limit (g ∷ gs) m = add_groups limit gs (add_group limit g m)

-- The last loop, from the index below the first argument down.
unfoldable pub fill_latest : ℕ → ℕ → List Bool → List Bool
fill_latest limit zero m = m
fill_latest limit (suc i) m =
    let rest = fill_latest limit i (set_at i m) in if leb limit (count_set m) then m else rest

module _ (mention_of : ContextMessage → Option String) (repeat_key : String → String) where
  abbrev pub mention_spam_signature : ContextMessage → Option String
  mention_spam_signature item = if is_plain item then mention_of item else none

  abbrev pub long_repeat_signature : ContextMessage → Option (String × String)
  long_repeat_signature item =
      let key = repeat_key item.text in
      if is_plain item
      then (if ltb (chars key) 28 then none else some (item.user_id, key))
      else none

  -- The messages kept, and the two sets of signatures seen.
  abbrev pub Seen : Type 0
  Seen = List ContextMessage × List String × List (String × String)

  abbrev pub seen_spam : Option String → List String → Bool
  seen_spam none seen = false
  seen_spam (some t) seen = has_text t seen

  abbrev pub seen_long : Option (String × String) → List (String × String) → Bool
  seen_long none seen = false
  seen_long (some t) seen = has_pair t seen

  abbrev pub with_seen : {A : Type 0} → Option A → List A → List A
  with_seen none seen = seen
  with_seen (some t) seen = t ∷ seen

  abbrev pub keep_new : Option String → ContextMessage → Seen → Seen
  keep_new quoted item (kept, spam, long) =
      if not (is_wanted quoted item.message_id)
        && (seen_spam (mention_spam_signature item) spam
            || seen_long (long_repeat_signature item) long)
      then (kept, spam, long)
      else (
        item ∷ kept,
        with_seen (mention_spam_signature item) spam,
        with_seen (long_repeat_signature item) long,
      )

  unfoldable pub deduplicate : Option String → List ContextMessage → Seen
  deduplicate quoted [] = ([], [], [])
  deduplicate quoted (x ∷ xs) = keep_new quoted x (deduplicate quoted xs)

  unfoldable pub filtered : List ContextMessage → ℕ → Option String → List ContextMessage
  filtered messages max_self quoted =
      limit_self_history max_self quoted (deduplicate quoted messages).0

  unfoldable pub select_chat_context :
      List ContextMessage → ℕ → ℕ → Option String → Option String → List ContextMessage
  select_chat_context messages limit max_self quoted user =
      let rest = filtered messages max_self quoted in
      if leb limit 0 || leb (length messages) 0
      then []
      else if leb (length rest) limit
      then rest
      else pick
          (fill_latest limit (length rest)
            (add_groups limit (priority_indices rest quoted user) (empty_mask rest)))
          rest
