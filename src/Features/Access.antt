-- ===== src/Features/Access.antt =====
-- What add_allowed and remove_allowed do to the allowlists.
use qq_violation_bot.Prelude.{
  ℕ, ◌≡◌, refl, ap, ◌∙◌, true, false, not, ◌&&◌, ◌||◌, Option, some, List, String, ◌==◌, ==_iff,
  Bool-cases, inl, inr, arith,
}
use qq_violation_bot.Features.Types.{FeatureState, AllowlistKind, group_chat, private_chat}
use qq_violation_bot.Features.Lists.{
  elem, remove_id, insert_sorted, elem-insert_sorted, elem-remove_id, remove_id-insert_sorted,
}
use qq_violation_bot.Features.Files.{Controller, no_fault, as_positive_int, replace_state}
use qq_violation_bot.Features.State.{add_allowed, remove_allowed, with_allowed, allowlist}
use qq_violation_bot.Features.Valid.{
  IsListed, sorted_allowlist-insert_sorted, as_positive_int-positive,
}
use qq_violation_bot.Features.Restart.{allowlist-IsRising}

allowlist-with_allowed :
    (kind : AllowlistKind) (s : FeatureState) (ids : List ℕ) (actor at : String)
    → allowlist kind (with_allowed kind s ids actor at) ≡ ids
allowlist-with_allowed group_chat s ids actor at = refl
allowlist-with_allowed private_chat s ids actor at = refl

-- An id that is on the list adds nothing to it.
known : (m n : ℕ) (ids : List ℕ) → elem n ids ≡ true → elem m ids ≡ (m == n || elem m ids)
known m n ids h = elim (Bool-cases (m == n)) [
  | inl same ↦ let e = (==_iff m n).0 same in ground (arith, ap (λ x. elem x ids) e ∙ h)
  | inr other_ ↦ rw other_ refl
]

unknown_ : (m n : ℕ) (ids : List ℕ) → elem n ids ≡ false → elem m ids ≡ (not (m == n) && elem m ids)
unknown_ m n ids h = elim (Bool-cases (m == n)) [
  | inl same ↦ let e = (==_iff m n).0 same in ground (arith, ap (λ x. elem x ids) e ∙ h)
  | inr other_ ↦ rw other_ refl
]

module _ {Input : Type 0} (read : Input → Option ℕ) (print : ℕ → Input)
    (read-print : (n : ℕ) → read (print n) ≡ some n) (c : Controller Input) (kind : AllowlistKind)
    (value : Input) (n : ℕ) (positive : as_positive_int read print value ≡ some n)
    (listed : IsListed c.state) where
  added_list :
      (actor at : String)
      → elem n (allowlist kind c.state) ≡ false
      → allowlist kind (add_allowed read print no_fault c kind value actor at).1.state
        ≡ insert_sorted n (allowlist kind c.state)
  unfolding add_allowed replace_state
  added_list actor at new =
      let ids = allowlist kind c.state in
      rw
        (
          positive,
          new,
          sorted_allowlist-insert_sorted read print read-print n ids
              (allowlist-IsRising kind c.state listed)
              (as_positive_int-positive read print value n positive),
          add_allowed,
        )
        (allowlist-with_allowed kind c.state (insert_sorted n ids) actor at)

  -- For a value that is a positive number, on rising allowlists, when the writes go through:
  -- add_allowed puts exactly that number on the list of its kind, and remove_allowed takes exactly
  -- that number off.
  pub add_allowed-remove_allowed :
      (m : ℕ) (actor at : String)
      → (elem m (allowlist kind (add_allowed read print no_fault c kind value actor at).1.state)
          ≡ (m == n || elem m (allowlist kind c.state)))
        × (elem m
              (allowlist kind (remove_allowed read print no_fault c kind value actor at).1.state)
            ≡ (not (m == n) && elem m (allowlist kind c.state)))
  unfolding add_allowed remove_allowed replace_state
  add_allowed-remove_allowed m actor at =
      let ids = allowlist kind c.state in
      elim (Bool-cases (elem n ids)) [
        | inl old ↦ (
          rw (positive, old, add_allowed) (known m n ids old),
          rw (positive, old, remove_allowed)
              (ap (elem m) (allowlist-with_allowed kind c.state (remove_id n ids) actor at)
                ∙ elem-remove_id m n ids),
        )
        | inr new ↦ (
          ap (elem m) (added_list actor at new) ∙ elem-insert_sorted m n ids,
          rw (positive, new, remove_allowed) (unknown_ m n ids new),
        )
      ]

  -- On rising allowlists, when the writes go through: a positive number that was not on the list,
  -- added and removed again, leaves the list as it was.
  pub remove_allowed-add_allowed :
      (actor at actor' at' : String)
      → elem n (allowlist kind c.state) ≡ false
      → allowlist kind
          (remove_allowed read print no_fault
            (add_allowed read print no_fault c kind value actor at).1
            kind
            value
            actor'
            at').1.state
        ≡ allowlist kind c.state
  unfolding remove_allowed replace_state
  remove_allowed-add_allowed actor at actor' at' new =
      let ids = allowlist kind c.state in
      let c' = (add_allowed read print no_fault c kind value actor at).1 in
      let list' : allowlist kind c'.state ≡ insert_sorted n ids = added_list actor at new in
      let there : elem n (allowlist kind c'.state) ≡ true =
        ap (elem n) list' ∙ (elem-insert_sorted n n ids ∙ ground arith) in
      rw (positive, there, remove_allowed)
        (allowlist-with_allowed kind c'.state (remove_id n (allowlist kind c'.state)) actor' at'
          ∙ (ap (remove_id n) list' ∙ remove_id-insert_sorted n ids new))
