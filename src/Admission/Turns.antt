-- ===== src/Admission/Turns.antt =====
-- run_chat_turn with _pending and _draining. The work of a turn, and what ends it, are a part of the
-- environment: a turn that is admitted has a number, and its task is done at some time.
use text.Mathlib.Text.{◌==◌ as str_eq}
use qq_violation_bot.Prelude.{
  ℕ, ◌+◌, ◌-◌, Bool, true, false, not, ◌&&◌, ◌||◌, Option, none, some, List, [], ◌∷◌, ◌++◌, String,
  select, leb, ◌==◌, if◌then◌else◌,
}

-- _pending
abbrev pub Pending : Type 0
Pending = List (String × ℕ)

abbrev pub total : Pending → ℕ
total [] = 0
total (e ∷ es) = e.1 + total es

-- _pending.get(key, 0)
abbrev pub pending_of : String → Pending → ℕ
pending_of key [] = 0
pending_of key (e ∷ es) = if str_eq e.0 key then e.1 else pending_of key es

-- _pending[key] = n
abbrev pub set_pending : String → ℕ → Pending → Pending
set_pending key n [] = (key, n) ∷ []
set_pending key n (e ∷ es) = if str_eq e.0 key then (key, n) ∷ es else e ∷ set_pending key n es

-- del _pending[key]
abbrev pub drop_pending : String → Pending → Pending
drop_pending key [] = []
drop_pending key (e ∷ es) = if str_eq e.0 key then es else e ∷ drop_pending key es

-- A task that is not released: one whose turn runs, or one of _draining.
pub record Task : Type 0 where
  pub id : ℕ
  pub key : String
  pub draining : Bool

pub record Admission : Type 0 where
  pub pending : Pending
  pub tasks : List Task
  pub next_id : ℕ

abbrev pub is_full : String → Pending → Bool
is_full key p = leb 32 (total p) || leb 4 (pending_of key p)

-- The start of a turn: none where it is rejected.
unfoldable pub begin_turn : Admission → String → Option ℕ × Admission
begin_turn a key = if is_full key a.pending then (none, a) else (
  some a.next_id,
  record a {
    pending = set_pending key (pending_of key a.pending + 1) a.pending;
    tasks = a.tasks ++ record { id = a.next_id; key = key; draining = false } ∷ [];
    next_id = a.next_id + 1;
  },
)

abbrev pub has_task : ℕ → Task → Bool
has_task i t = t.id == i

-- The first task that meets the test leaves.
unfoldable pub drop_task : (Task → Bool) → List Task → List Task
drop_task test [] = []
drop_task test (t ∷ ts) = if test t then ts else t ∷ drop_task test ts

-- release, for a key
unfoldable pub release : Pending → String → Pending
release p key =
    let remaining = pending_of key p - 1 in
    if not (remaining == 0) then set_pending key remaining p else drop_pending key p

abbrev pub in_turn : ℕ → Task → Bool
in_turn i t = has_task i t && not t.draining

-- The end of a turn, in `finally`: a task that is not done is left to drain.
unfoldable pub end_turn : Admission → ℕ → Bool → Admission
end_turn a i done = elim (select (in_turn i) a.tasks) [
  | none ↦ a
  | some t ↦
      if done
      then record a { pending = release a.pending t.key; tasks = drop_task (in_turn i) a.tasks }
      else record a { tasks = drop_task (in_turn i) a.tasks ++ record t { draining = true } ∷ [] }
]

abbrev pub drains : ℕ → Task → Bool
drains i t = has_task i t && t.draining

-- The callback of a task that drained.
unfoldable pub drained : Admission → ℕ → Admission
drained a i = elim (select (drains i) a.tasks) [
  | none ↦ a
  | some t ↦ record a { pending = release a.pending t.key; tasks = drop_task (drains i) a.tasks }
]
