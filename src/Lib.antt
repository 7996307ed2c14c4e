-- ===== src/Lib.antt =====
-- The QQ group bot: the v1.0.2 deduction policy of the violation records, the outbox of the content
-- alerts, the feature switches, the choice of the context and the delivery of chat replies, and the
-- character budget of the chat prompts. The parts do not call each other here: the feature switches
-- and the chat turn enter the delivery as answers of the world.
--
-- Policy models plugins/violation_record/deduction_policy.py over the tables of
-- plugins/violation_record/policy_schema.py and db.py. Its statements name one (member_id,
-- group_area) scope or a row of one, but for the lookup of an idempotency key in _insert_event and
-- resolve_policy_review, which ranges over all scopes, and that of a pending action's key, which
-- holds the id of an event and is looked up in the scope here. So a `Db` holds the rows of one
-- scope, oldest first, the events of the other scopes, and the next id of each table; its
-- member_group_states row is present (the program raises LookupError otherwise). Counts of that
-- row are natural numbers, count deltas and the baseline adjustment are integers. Times are
-- seconds, for texts that order as the times do; a timedelta of days is a multiple of 86400. An
-- idempotency key is a constructor with the numbers of its f-string. The columns created_at,
-- updated_at and rule_version, which no modelled statement reads, are left out.
--   Policy/Types: the enumerations, the rows and `Db`.
--   Policy/Keys: the UNIQUE keys.
--   Policy/Count: raw_effective_record_summary to sync_count_state.
--   Policy/Events: _insert_event, ensure_policy_scope_snapshot, the pending actions.
--   Policy/Cycles: _active_cycle, _set_no_cycle, _start_cycle, _enter_slow, _cancel_active_cycle,
--   _apply_reduction.
--   Policy/Settle: _mark_stop_due, _settle_final_warning, _settle_cycle, settle_due_cycles. The
--   `while True` takes fuel, `now + 2` rounds: each round moves the due time of the one open cycle
--   forward or ends the loop (Settle/Step, Settle/Total).
--   Policy/Manual: the four decisions about a stop. An exception is a result; the connection of
--   db.py rolls back what was written before it.
--   Policy/Review: _has_later_effective_event, _validate_effective_time, record_policy_review,
--   _latest_review_checkpoint, _set_event_evaluation_owner.
--   Policy/Records: process_violation_record, _apply_old_backfill_count_effect (Records/Keep,
--   Records/Apply: what they keep; Records/Answers: its errors and where it places a record).
--   Policy/Status: process_status_change, from its UPDATE of the status on; Status/Process: all of it.
--   Both take replay_member_group as an argument. They settle at one second before the new time, so
--   times are at least 1.
--   Policy/Invariant: well-formed scopes, and what each operation does to them (Invariant/Keep,
--   Manual/Keep); Policy/Lifecycle: the operations in any order as a step relation;
--   Manual/Restart, Manual/Cleared: the answers of clear_manual_stop; Policy/Guards: the keys of
--   events; Policy/Reduction: the counts.
--   Policy/Replay: the reset of a scope before a replay, and what it leaves (Replay/Clean).
--   Policy/Accept, Resolve: resolve_policy_review, and that it keeps the scope well-formed
--   (Resolve/Keep).
--   Policy/Tests, Tests/Decisions: runs and instances of the theorems.
--
-- Budget models plugins/chat_prompt/budget.py with the records of models.py, from the texts on that
-- neutralize_role_markers, _context_text, _profile_text and _relationship_text give (`RawPrompt`).
-- A text is the list of its characters, a reference of a speaker a string. The fields that
-- apply_prompt_budget hands through unchanged are left out.
--   Budget/Types: PromptBudget, TruncationCounters, BudgetedPromptData, SpeakerIdentity.
--   Budget/Fit: _clip, _fit_sequence, _trim_tail, prompt_data_chars.
--   Budget/Context, Budget/Apply: apply_prompt_budget, _prune_speakers. The `while` loops drop one
--   message a round and take the number of messages as fuel; Total, Window and Order show what
--   holds after them.
--   Budget/Chars, Window, Latest, Total, Accounts, Order, Pruned: the characters kept and removed by
--   the helpers, the context window, the total, the counters, the ids of the context, the speakers.
--   Budget/Tests: runs and instances of the theorems.
--
-- Outbox models plugins/content_alert/outbox.py: the three tables as lists of rows, each call as a
-- function on the ledger. Times are natural numbers; the key of a report is the number that its
-- SHA-256 writes, an argument, as is the token that uuid4 makes. Each call is one transaction.
--   Outbox/Types: the tables and the limits. Outbox/Ops: enqueue to resolve.
--   Outbox/Valid, Keep, Send: well-formed ledgers, and what each call does to them.
--   Outbox/Steps, Settled: the calls in any order as a step relation. Outbox/Once: leases, rejections
--   and abandoned leases. Outbox/Tests: runs and instances of the theorems.
--
-- Features models plugins/feature_control/state.py: the controller of the switches and allowlists with
-- its two files. The Boolean fields of FeatureState are a function of their names. A file holds the
-- object that json.load gives, or nothing; os.replace writes a file whole or not at all, so a failed
-- write (`Fault`) leaves the old one. `read` and `print` stand for what str, strip, isdigit and int do
-- with a value, with the law that a printed number reads as itself.
--   Features/Types, Lists: the names, the states, sorted lists of ids. Features/Files: the start, the
--   loading and the writing. Features/State: the changes and the questions.
--   Features/Valid, Restart: sound controllers, and runs with failures and restarts.
--   Features/Model, Access: the gateway without its provider; the allowlists. Features/Tests: runs
--   and instances of the theorems.
--
-- Delivery models plugins/random_chat/delivery.py with DeliveryLedger of delivery_store.py, for the
-- rows of one event. What the world answers while a part is handled is a `Turn`; no other task changes
-- the rows meanwhile.
--   Delivery/Ledger: plan, claim, transition. Delivery/Send: the loop of deliver_replies.
--   Delivery/Once, Complete, Plan: repeated runs, complete runs, repeated plans. Delivery/Tests: runs
--   and instances of the theorems.
--
-- Context models plugins/random_chat/context.py. The texts that its signatures compare come from
-- regular expressions and Unicode tables and are arguments. A set of indices is a list of flags; a
-- loop from the last message on is a recursion that handles the later messages first.
--   Context/Mask: the flags. Context/Select: the filters and select_chat_context. Context/Limits: how
--   many messages are chosen. Context/Quoted: the quoted one. Context/Tests: a run and
--   instances of the theorems.
--
-- Jobs models MemoryJobQueue of plugins/private_memory/jobs.py, whose table is memory_jobs of schema.py,
-- and the UPDATEs of that table in store.py and memory_governance/service.py. Each operation is one
-- transaction. The limit of a claim is what the recursion over the rows has left.
--   Jobs/Types: the rows and the settings. Jobs/Queue: enqueue. Jobs/Work: the operations of the workers
--   and the lifecycle. Jobs/Valid, Claims, Keep: well-formed queues. Jobs/Steps: the operations in any
--   order. Jobs/Stuck, Forever: jobs with no attempt left. Jobs/Tests: runs and instances of the theorems.
--
-- Literals models ScalableLiteralMatcher of plugins/content_alert/engine.py and normalize_literal_text of
-- rules.py. A text is a list of code points; NFKC with casefold, the whitespace, the control characters
-- and the order of texts are arguments. `transitions` and `terminals` are one list of nodes; a bucket
-- holds the pairs that the source encodes as numbers. Each loop is a recursion over the rest of the text.
--   Literals/Types, Normal: the trie, the normalizing of a text. Literals/Build: __init__. Literals/Scan,
--   Match: the scan, the competing candidates and the order of the matches.
--   Literals/Nodes, Grow, Lookup, Built: what a built trie holds. Literals/Equal: the scan without a trie.
--   Literals/Owners, Apart: the positions that matches cover. Literals/Tests: runs and instances of the
--   theorems.
--
-- Admission models run_chat_turn of plugins/random_chat/admission.py: the counters of _pending and the
-- tasks that are not released, of which those of _draining have a flag. What a turn does and how long it
-- takes is not a part of the model.
--   Admission/Turns: the start and the end of a turn. Admission/Counts: the counters. Admission/Capacity:
--   the turns in any order. Admission/Tests: runs and instances of the theorems.
--
-- Not modelled: the rest of replay_member_group, and withdraw_violation_record, of
-- deduction_policy.py, and its loop over all scopes; the severity that parse_mute_seconds reads from
-- an action text, which is a column of the record here; the listings of the outbox, the commands, the
-- scheduler and the other plugins; SQLite itself, the network and the model providers.
pub mod Prelude
pub mod Policy
pub mod Admission
pub mod Budget
pub mod Outbox
pub mod Features
pub mod Delivery
pub mod Context
pub mod Jobs
pub mod Literals
