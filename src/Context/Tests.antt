-- ===== src/Context/Tests.antt =====
-- A choice among four messages.
use Prim.Native.Nat.{min}
use qq_violation_bot.Prelude.{
  ◌≡◌, ◌≤◌, arith, refl, Bool, true, false, Option, none, some, List, [], ◌∷◌, String, length,
}
use qq_violation_bot.Context.Select.{
  ContextMessage, count_own, filtered, self_history, limit_self_history, deduplicate,
  select_chat_context, priority_indices, bot_groups, add_groups, fill_latest,
}
use qq_violation_bot.Context.Quoted.{count_quoted, select_chat_context-quoted}
use qq_violation_bot.Context.Limits.{length-select_chat_context, select_chat_context-own}

abbrev message : String → Bool → Option String → ContextMessage
message i bot answers = record {
  message_id = i;
  user_id = "7";
  is_bot = bot;
  reply_message_id = answers;
  has_images = false;
  text = "";
}

abbrev messages : List ContextMessage
messages =
    message "1" false none
    ∷ message "2" false none
    ∷ message "3" true (some "1")
    ∷ message "4" false none
    ∷ []

-- The bot's answer is kept with the message that it answers, beside the user's last message.
answer_with_trigger :
    select_chat_context (λ m. none) (λ t. t) messages 3 3 none (some "7")
    ≡ message "1" false none ∷ message "3" true (some "1") ∷ message "4" false none ∷ []
unfolding select_chat_context filtered limit_self_history self_history deduplicate priority_indices
    bot_groups add_groups fill_latest
answer_with_trigger = refl

length-select_chat_context_example :
    length (select_chat_context (λ m. none) (λ t. t) messages 3 3 none (some "7"))
    ≡ min 3 (length (filtered (λ m. none) (λ t. t) messages 3 none))
length-select_chat_context_example =
    length-select_chat_context (λ m. none) (λ t. t) messages 3 3 none (some "7")

select_chat_context-own_example :
    count_own none (select_chat_context (λ m. none) (λ t. t) messages 3 0 none (some "7")) ≤ 0
select_chat_context-own_example =
    select_chat_context-own (λ m. none) (λ t. t) messages 3 0 none (some "7")

select_chat_context-quoted_example :
    count_quoted
      (some "2")
      (select_chat_context (λ m. none) (λ t. t) messages 1 3 (some "2") (some "7"))
    ≡ count_quoted (some "2") messages
select_chat_context-quoted_example =
    select_chat_context-quoted (λ m. none) (λ t. t) messages 1 3 (some "2") (some "7") (omega arith)
