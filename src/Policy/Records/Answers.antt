-- ===== src/Policy/Records/Answers.antt =====
-- The answers of process_violation_record: its errors, and the scope in which it places a record.
use qq_violation_bot.Prelude.{
  ℕ, ◌-◌, ◌<◌, ◌≡◌, ◌⊎◌, refl, Bool, true, false, not, ◌&&◌, ◌||◌, Option, none, some, Result, ok,
  raise, select, exists, leb, ltb→lt, ◌==◌, if◌then◌else◌, Bool-cases, Option-cases, inl, inr,
}
use qq_violation_bot.Policy.Types.{
  Db, Cycle, ViolationRecord, PolicyOutcome, duration_review, replay_review, event_replay_review,
}
use qq_violation_bot.Policy.Count.{is_effective, sync_count_state}
use qq_violation_bot.Policy.Events.{insert_event, ensure_policy_state, policy_scope_under_review}
use qq_violation_bot.Policy.Settle.{settle_due_cycles}
use qq_violation_bot.Policy.Settle.Total.{settle_due_cycles-total}
use qq_violation_bot.Policy.Invariant.{IsValid, IsValidFrom-SameCore}
use qq_violation_bot.Policy.Invariant.Keep.{
  SameCore-insert_event, SameCore-ensure, SameCore-sync, SameCore-create_pending,
}
use qq_violation_bot.Policy.Manual.{outcome}
use qq_violation_bot.Policy.Review.{
  InputError, missing_record, future_time, out_of_fuel, replay_failed, is_future, before_checkpoint,
}
use qq_violation_bot.Policy.Status.Process.{IsValid-record_policy_review}
use qq_violation_bot.Policy.Records.{
  process_violation_record, new_record, place_record, replayed, recent_cycles, record_cutoff,
  apply_mute, apply_old_backfill, is_unknown, is_empty, is_backfill, is_late, is_none_severity,
  record_event, nothing,
}

abbrev pub is_record : ℕ → ViolationRecord → Bool
is_record i r = r.id == i

-- A returned scope is well-formed, and an error has its reason in the scope.
abbrev pub IsExplained : Db → ℕ → ℕ → Result InputError (PolicyOutcome × Db) → Type 0
IsExplained db i ingested (ok r) = IsValid r.1
IsExplained db i ingested (raise missing_record) = select (is_record i) db.records ≡ none
IsExplained db i ingested (raise future_time) =
    (r : ViolationRecord) × (select (is_record i) db.records ≡ some r)
    × (ingested < r.violation_time)
IsExplained db i ingested (raise out_of_fuel) = ⊥
IsExplained db i ingested (raise replay_failed) = ⊥

module _ (replay : Db → ℕ → ℕ → Result InputError Db) where
  -- How a record is placed: as a mute, as an old one of a closed period, or, where its time is before
  -- an effective event, by the replay.
  abbrev pub IsPlaced :
      Db → ViolationRecord → ℕ → ℕ → ℕ → Result InputError (PolicyOutcome × Db) → Type 0
  IsPlaced db r e ingested g answer =
      (answer ≡ ok (apply_mute db r.severity e r.violation_time ingested g))
      ⊎ (is_backfill db g r.violation_time || is_late db r e ingested g ≡ true)
        × (answer ≡ ok (apply_old_backfill db e ingested))
      ⊎ (is_late db r e ingested g ≡ true) × (answer ≡ replayed replay e (replay db e ingested))

  -- A record is placed in a well-formed scope, in which the cycles due before its time are settled
  -- and the counts are those of the records.
  abbrev pub IsRecorded :
      Db → ViolationRecord → ℕ → ℕ → ℕ → Result InputError (PolicyOutcome × Db) → Type 0
  IsRecorded db r e ingested g answer =
      (s : ℕ × Db) × (settle_due_cycles (ensure_policy_state db).1 (r.violation_time - 1) ≡ some s)
      × IsValid (sync_count_state s.1 (record_cutoff r g))
      × IsPlaced (sync_count_state s.1 (record_cutoff r g)) r e ingested g answer

  -- What is said of an answer about the record `i` and its event `e`, in the scope that has the event.
  abbrev pub RecordAnswer :
      Db → ℕ → ℕ → ℕ → Option ℕ → Result InputError (PolicyOutcome × Db) → Type 0
  RecordAnswer db i ingested g by answer =
      IsExplained db i ingested answer
      ⊎ ((r : ViolationRecord) × (select (is_record i) db.records ≡ some r)
          × IsRecorded (insert_event db (record_event r ingested g by)).2 r
              (insert_event db (record_event r ingested g by)).0 ingested g answer)

  IsPlaced-place_record :
      (start db : Db) (i : ℕ) (r : ViolationRecord) (e ingested g : ℕ)
      → IsValid db
      → IsExplained start i ingested (place_record replay db r e ingested g)
        ⊎ IsPlaced db r e ingested g (place_record replay db r e ingested g)
  unfolding place_record
  IsPlaced-place_record start db i r e ingested g v = elim (Bool-cases (is_unknown r.severity)) [
    | inl unclear ↦
        rw unclear (inl (IsValidFrom-SameCore (SameCore-create_pending db duration_review _ e) v))
    | inr known ↦ rw known (elim (Bool-cases (is_backfill db g r.violation_time)) [
      | inl old ↦ rw old (inr (inr (inl (refl, refl))))
      | inr fresh ↦ rw fresh (elim (Bool-cases (is_late db r e ingested g)) [
        | inr in_order ↦ rw in_order (inr (inl refl))
        | inl late ↦
            rw late
              (elim (Bool-cases
                (exists (λ (c : Cycle). leb c.start_at r.violation_time) (recent_cycles db))) [
                  | inl covered ↦ rw covered (inr (inr (inr (refl, refl))))
                  | inr outside ↦ rw outside (elim (Bool-cases (is_empty (recent_cycles db))) [
                    | inl nothing_yet ↦ rw nothing_yet (inr (inl refl))
                    | inr some_cycle ↦ rw some_cycle (inr (inr (inl (refl, refl))))
                  ])
                ])
      ])
    ])
  ]

  IsRecorded-new_record :
      (start db : Db) (i : ℕ) (r : ViolationRecord) (e ingested g : ℕ)
      → IsValid db
      → IsExplained start i ingested (new_record replay db r e ingested g)
        ⊎ IsRecorded db r e ingested g (new_record replay db r e ingested g)
  unfolding new_record
  IsRecorded-new_record start db i r e ingested g v =
      let db₁ = (ensure_policy_state db).1 in
      let v₁ = IsValidFrom-SameCore (SameCore-ensure db) v in
      let (s, ends, kept, _) = settle_due_cycles-total db₁ (r.violation_time - 1) v₁ in
      let settled = IsValidFrom-SameCore (SameCore-sync s.1 (record_cutoff r g)) kept in
      elim (Bool-cases (before_checkpoint db₁ g r.violation_time)) [
        | inl before ↦ rw before (
            inl (
              IsValid-record_policy_review db₁ (some r.id) (event_replay_review e) ingested _
                replay_review v₁))
        | inr after ↦
            rw (after, ends)
              (elim (IsPlaced-place_record start (sync_count_state s.1 (record_cutoff r g)) i r e
                ingested g settled) [
                  | inl explained ↦ inl explained
                  | inr placed ↦ inr (s, refl, settled, placed)
                ])
      ]

  -- On a well-formed scope, whatever the replay answers: process_violation_record raises LookupError
  -- only where there is no such record, PolicyInputError only for a record whose time is later than
  -- the time of processing, and it returns a well-formed scope; or the settlement of the scope with
  -- the record's event ends, is well-formed with its counts written, and the record is placed in it as
  -- a mute, as an old one, or, where it is late, by the replay.
  pub process_violation_record-RecordAnswer :
      (db : Db) (i ingested g : ℕ) (by : Option ℕ)
      → IsValid db
      → RecordAnswer db i ingested g by (process_violation_record replay db i ingested g by)
  unfolding process_violation_record
  process_violation_record-RecordAnswer db i ingested g by v =
      elim (Option-cases (select (is_record i) db.records)) [
        | inl e ↦ rw (e, process_violation_record) (inl e)
        | inr (r, e) ↦ let known = answered r e in rw (e, process_violation_record) (rw e at known)
      ]
    where
      answered :
          (r : ViolationRecord)
          → select (is_record i) db.records ≡ some r
          → RecordAnswer db i ingested g by (
              let (e, created, db₁) = insert_event db (record_event r ingested g by) in
              if not (is_effective r) || is_none_severity r.severity
              then ok (nothing, db)
              else if g == 0 && policy_scope_under_review db
              then ok (nothing, db)
              else if is_future r.violation_time ingested
              then raise future_time
              else if created
              then new_record replay db₁ r e ingested g
              else ok (outcome e false, db₁))
      answered r found =
          let ev = record_event r ingested g by in
          let new = insert_event db ev in
          let v₁ = IsValidFrom-SameCore (SameCore-insert_event db ev) v in
          elim (Bool-cases (not (is_effective r) || is_none_severity r.severity)) [
            | inl idle ↦ rw idle (inl v)
            | inr counts ↦ rw counts (elim (Bool-cases (g == 0 && policy_scope_under_review db)) [
              | inl waits ↦ rw waits (inl v)
              | inr free ↦ rw free (elim (Bool-cases (is_future r.violation_time ingested)) [
                | inl future ↦ rw future (inl (r, found, ltb→lt ingested r.violation_time future))
                | inr past ↦ rw past (elim (Bool-cases new.1) [
                  | inr known ↦ rw known (inl v₁)
                  | inl created ↦
                      rw created (elim (IsRecorded-new_record db new.2 i r new.0 ingested g v₁) [
                        | inl explained ↦ inl explained
                        | inr recorded ↦ inr (r, found, recorded)
                      ])
                ])
              ])
            ])
          ]
