-- ===== src/Admission/Capacity.antt =====
-- The admitted turns in any order of their starts and ends.
use text.Mathlib.TextEquality.{eq_iff}
use text.Mathlib.TextPositions.{eq_refl}
use qq_violation_bot.Prelude.{
  ℕ, ◌+◌, ◌≤◌, ◌≡◌, sym, ◌∙◌, inl, inr, Bool, true, false, Option, some, [], ◌∷◌, ◌++◌, String,
  select, arith, length, length-append, if-ind, Option-cases,
}
use qq_violation_bot.Admission.Turns.{
  total, pending_of, Task, Admission, begin_turn, is_full, drop_task, release, in_turn, drains,
  end_turn, drained,
}
use qq_violation_bot.Admission.Counts.{
  total-set_pending, pending_of-set_pending, count_key, count_key-append, count_key-drop_task,
  Unique, Unique-set_pending, Unique-release, pending_of-release, total-release, length-drop_task,
}

-- Each counter is the number of the tasks of its key that are not released; there are at most 32 such
-- tasks, and at most four of a key.
pub record IsCounted (a : Admission) : Type 0 where
  pub counts : (key : String) → pending_of key a.pending ≡ count_key key a.tasks
  pub whole : total a.pending ≡ length a.tasks
  pub unique : Unique a.pending
  pub within : length a.tasks ≤ 32
  pub within_key : (key : String) → count_key key a.tasks ≤ 4

pub data Step (a : Admission) : Admission → Type 0 where
  begun : (key : String) → Step a (begin_turn a key).1
  ended : (i : ℕ) (done : Bool) → Step a (end_turn a i done)
  finished : (i : ℕ) → Step a (drained a i)

pub data Run (a : Admission) : Admission → Type 0 where
  rest : Run a a
  more : {b c : Admission} → Run a b → Step b c → Run a c

IsCounted-begin_turn : (a : Admission) (key : String) → IsCounted a → IsCounted (begin_turn a key).1
unfolding begin_turn
IsCounted-begin_turn a key v =
    if-ind (λ (r : Option ℕ × Admission). IsCounted r.1) (is_full key a.pending) (λ _. v)
      (λ room.
        let t : Task = record { id = a.next_id; key = key; draining = false } in
        record {
          counts = λ k. ground (
            arith,
            pending_of-set_pending key k (pending_of key a.pending + 1) a.pending,
            count_key-append k a.tasks t,
            v.counts k,
            v.counts key,
            eq_iff key k,
          );
          whole = omega (
            arith,
            total-set_pending key (pending_of key a.pending + 1) a.pending,
            v.whole,
            length-append a.tasks (t ∷ []),
          );
          unique = Unique-set_pending key (pending_of key a.pending + 1) a.pending v.unique;
          within = ground (arith, room, v.whole, length-append a.tasks (t ∷ []));
          within_key = λ k. ground (
            arith,
            room,
            count_key-append k a.tasks t,
            v.within_key k,
            v.counts key,
            eq_iff key k,
          );
        })

-- A task leaves with its count.
IsCounted-release :
    (a : Admission) (test : Task → Bool) (t : Task)
    → select test a.tasks ≡ some t
    → IsCounted a
    → IsCounted (record a { pending = release a.pending t.key; tasks = drop_task test a.tasks })
IsCounted-release a test t e v =
    let mine : 1 ≤ pending_of t.key a.pending =
      ground (arith, v.counts t.key, count_key-drop_task t.key test a.tasks t e, eq_refl t.key) in
    record {
      counts = λ k. ground (
        arith,
        pending_of-release t.key k a.pending v.unique,
        v.counts k,
        v.counts t.key,
        count_key-drop_task k test a.tasks t e,
        eq_iff t.key k,
      );
      whole =
          omega
            (arith, total-release t.key a.pending mine, v.whole, length-drop_task test a.tasks t e);
      unique = Unique-release t.key a.pending v.unique;
      within = omega (arith, v.within, length-drop_task test a.tasks t e);
      within_key = λ k. ground (arith, v.within_key k, count_key-drop_task k test a.tasks t e);
    }

-- A task that goes on draining keeps its count.
IsCounted-drain :
    (a : Admission) (test : Task → Bool) (t : Task)
    → select test a.tasks ≡ some t
    → IsCounted a
    → IsCounted (record a { tasks = drop_task test a.tasks ++ record t { draining = true } ∷ [] })
IsCounted-drain a test t e v =
    let later : Task = record t { draining = true } in
    let same : (k : String)
        → count_key k (drop_task test a.tasks ++ later ∷ []) ≡ count_key k a.tasks =
      λ k. ground (
        arith,
        count_key-append k (drop_task test a.tasks) later,
        count_key-drop_task k test a.tasks t e,
      ) in
    let long : length (drop_task test a.tasks ++ later ∷ []) ≡ length a.tasks = omega (
      arith,
      length-append (drop_task test a.tasks) (later ∷ []),
      length-drop_task test a.tasks t e,
    ) in
    record {
      counts = λ k. v.counts k ∙ sym (same k);
      whole = v.whole ∙ sym long;
      unique = v.unique;
      within = omega (arith, v.within, long);
      within_key = λ k. omega (arith, v.within_key k, same k);
    }

IsCounted-end_turn :
    (a : Admission) (i : ℕ) (done : Bool) → IsCounted a → IsCounted (end_turn a i done)
unfolding end_turn
IsCounted-end_turn a i done v = elim (Option-cases (select (in_turn i) a.tasks)) [
  | inl none_ ↦ rw (none_, end_turn) v
  | inr (t, e) ↦
      rw (e, end_turn)
        (if-ind IsCounted done (λ _. IsCounted-release a (in_turn i) t e v)
          (λ _. IsCounted-drain a (in_turn i) t e v))
]

IsCounted-drained : (a : Admission) (i : ℕ) → IsCounted a → IsCounted (drained a i)
unfolding drained
IsCounted-drained a i v = elim (Option-cases (select (drains i) a.tasks)) [
  | inl none_ ↦ rw (none_, drained) v
  | inr (t, e) ↦ rw (e, drained) (IsCounted-release a (drains i) t e v)
]

IsCounted-Step : {a b : Admission} → Step a b → IsCounted a → IsCounted b
IsCounted-Step {a} (begun key) v = IsCounted-begin_turn a key v
IsCounted-Step {a} (ended i done) v = IsCounted-end_turn a i done v
IsCounted-Step {a} (finished i) v = IsCounted-drained a i v

-- However the turns start, end and drain: each counter stays the number of the tasks of its key that
-- are not released, which are at most four, and there are at most 32 in all.
pub Run-IsCounted : {a b : Admission} → Run a b → IsCounted a → IsCounted b
Run-IsCounted rest v = v
Run-IsCounted (more r s) v = IsCounted-Step s (Run-IsCounted r v)
