-- ===== src/Features/Restart.antt =====
-- Every operation of the controller keeps it sound, whatever writes fail; so a start from its files
-- gives its state again.
use qq_violation_bot.Prelude.{
  ℕ, ◌≡◌, Bool, not, ◌&&◌, ◌||◌, Option, some, List, String, if-ind, Option-cases, inl, inr,
}
use qq_violation_bot.Features.Types.{
  Switch, FeatureState, Capabilities, AllowlistKind, group_chat, private_chat,
}
use qq_violation_bot.Features.Lists.{
  IsRising, elem, remove_id, insert_sorted, IsRising-insert_sorted, IsRising-remove_id,
}
use qq_violation_bot.Features.Files.{
  Raw, Fault, Controller, as_positive_int, start, open_state, replace_state,
}
use qq_violation_bot.Features.State.{
  set_switches, add_allowed, remove_allowed, validate_switches, with_changes, with_allowed,
  allowlist, Reply, reply, is_none, disables_chat_model, enables_primary,
}
use qq_violation_bot.Features.Valid.{
  IsListed, IsCapable, IsSound, IsCapable-with_changes, start-IsSound, IsSound-replace_state,
  sorted_allowlist-insert_sorted, as_positive_int-positive,
}

-- The controllers that a run of the program, with its restarts, can have.
pub data Run {Input : Type 0} (read : Input → Option ℕ) (print : ℕ → Input)
    (defaults : FeatureState) : Controller Input → Type 0 where
  started :
      (caps : Capabilities) (file backup : Option (Raw Input))
      → Run read print defaults (start read print caps defaults file backup)
  switched :
      {c : Controller Input} (fault : Fault) (changes : List (Switch × Bool)) (actor at : String)
      → Run read print defaults c
      → Run read print defaults (set_switches read print fault c changes actor at).1
  added :
      {c : Controller Input} (fault : Fault) (kind : AllowlistKind) (value : Input)
      (actor at : String)
      → Run read print defaults c
      → Run read print defaults (add_allowed read print fault c kind value actor at).1
  removed :
      {c : Controller Input} (fault : Fault) (kind : AllowlistKind) (value : Input)
      (actor at : String)
      → Run read print defaults c
      → Run read print defaults (remove_allowed read print fault c kind value actor at).1
  restarted :
      {c : Controller Input} (caps : Capabilities)
      → Run read print defaults c
      → Run read print defaults (start read print caps defaults c.file c.backup)

pub allowlist-IsRising :
    (kind : AllowlistKind) (s : FeatureState) → IsListed s → IsRising 0 (allowlist kind s)
allowlist-IsRising group_chat s l = l.groups
allowlist-IsRising private_chat s l = l.users

IsListed-with_allowed :
    (kind : AllowlistKind) (s : FeatureState) (ids : List ℕ) (actor at : String)
    → IsListed s
    → IsRising 0 ids
    → IsListed (with_allowed kind s ids actor at)
IsListed-with_allowed group_chat s ids actor at l r = record { groups = r; users = l.users }
IsListed-with_allowed private_chat s ids actor at l r = record { groups = l.groups; users = r }

IsCapable-with_allowed :
    (caps : Capabilities) (kind : AllowlistKind) (s : FeatureState) (ids : List ℕ)
    (actor at : String)
    → IsCapable caps s
    → IsCapable caps (with_allowed kind s ids actor at)
IsCapable-with_allowed caps group_chat s ids actor at v = v
IsCapable-with_allowed caps private_chat s ids actor at v = v

module _ {Input : Type 0} (read : Input → Option ℕ) (print : ℕ → Input)
    (read-print : (n : ℕ) → read (print n) ≡ some n) (defaults : FeatureState) where
  abbrev Kept : Reply × Controller Input → Type 0
  Kept r = IsSound read print defaults r.1

  IsSound-set_switches :
      (fault : Fault) (c : Controller Input) (changes : List (Switch × Bool)) (actor at : String)
      → IsSound read print defaults c
      → Kept (set_switches read print fault c changes actor at)
  unfolding set_switches
  IsSound-set_switches fault c changes actor at v =
      if-ind Kept (is_none changes) (λ _. v)
        (λ _. elim (Option-cases (validate_switches c.capabilities changes)) [
          | inr (e, bad) ↦ rw bad v
          | inl good ↦ rw good (
              if-ind Kept
                (not c.capabilities.primary_provider_available
                  && (disables_chat_model c.state changes || enables_primary c.state changes))
                (λ _. v)
                (λ _.
                  IsSound-replace_state read print read-print defaults fault c
                    (with_changes c.state changes actor at) v
                    (record { groups = v.listed.groups; users = v.listed.users })
                    (IsCapable-with_changes c.capabilities c.state changes actor at good
                      v.capable)))
        ])

  IsSound-with_allowed :
      (fault : Fault) (c : Controller Input) (kind : AllowlistKind) (ids : List ℕ)
      (actor at : String)
      → IsSound read print defaults c
      → IsRising 0 ids
      → Kept (reply (replace_state read print fault c (with_allowed kind c.state ids actor at)))
  IsSound-with_allowed fault c kind ids actor at v r =
      IsSound-replace_state read print read-print defaults fault c _ v
        (IsListed-with_allowed kind c.state ids actor at v.listed r)
        (IsCapable-with_allowed c.capabilities kind c.state ids actor at v.capable)

  IsSound-add_allowed :
      (fault : Fault) (c : Controller Input) (kind : AllowlistKind) (value : Input)
      (actor at : String)
      → IsSound read print defaults c
      → Kept (add_allowed read print fault c kind value actor at)
  unfolding add_allowed
  IsSound-add_allowed fault c kind value actor at v =
      elim (Option-cases (as_positive_int read print value)) [
        | inl bad ↦ rw (bad, add_allowed) v
        | inr (n, e) ↦
            let ids = allowlist kind c.state in
            let r = allowlist-IsRising kind c.state v.listed in
            let positive = as_positive_int-positive read print value n e in
            rw (e, add_allowed)
              (if-ind Kept (elem n ids) (λ _. v)
                (λ _. rw (sorted_allowlist-insert_sorted read print read-print n ids r positive) (
                  IsSound-with_allowed fault c kind (insert_sorted n ids) actor at v
                    (IsRising-insert_sorted 0 n ids positive r))))
      ]

  IsSound-remove_allowed :
      (fault : Fault) (c : Controller Input) (kind : AllowlistKind) (value : Input)
      (actor at : String)
      → IsSound read print defaults c
      → Kept (remove_allowed read print fault c kind value actor at)
  unfolding remove_allowed
  IsSound-remove_allowed fault c kind value actor at v =
      elim (Option-cases (as_positive_int read print value)) [
        | inl bad ↦ rw (bad, remove_allowed) v
        | inr (n, e) ↦
            let ids = allowlist kind c.state in
            rw (e, remove_allowed)
              (if-ind Kept (elem n ids)
                (λ _.
                  IsSound-with_allowed fault c kind (remove_id n ids) actor at v
                    (IsRising-remove_id 0 n ids (allowlist-IsRising kind c.state v.listed)))
                (λ _. v))
      ]

  pub Run-IsSound :
      {c : Controller Input}
      → IsListed defaults
      → Run read print defaults c
      → IsSound read print defaults c
  Run-IsSound h (started caps file backup) = start-IsSound read print caps defaults file backup h
  Run-IsSound h (switched {c} fault changes actor at r) =
      IsSound-set_switches fault c changes actor at (Run-IsSound h r)
  Run-IsSound h (added {c} fault kind value actor at r) =
      IsSound-add_allowed fault c kind value actor at (Run-IsSound h r)
  Run-IsSound h (removed {c} fault kind value actor at r) =
      IsSound-remove_allowed fault c kind value actor at (Run-IsSound h r)
  Run-IsSound h (restarted {c} caps r) = start-IsSound read print caps defaults c.file c.backup h

  -- Where the defaults' allowlists rise and a printed number reads as itself: after any run of
  -- changes and restarts, whichever of their writes fail, a start from the two files, with the same
  -- capabilities, gives the state that the controller has.
  pub Run-open_state :
      {c : Controller Input}
      → IsListed defaults
      → Run read print defaults c
      → open_state read print c.capabilities defaults c.file c.backup ≡ c.state
  Run-open_state h r = (Run-IsSound h r).restores
