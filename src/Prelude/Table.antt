-- ===== src/Prelude/Table.antt =====
-- A database table as the list of its rows, oldest first, and the statements the program runs on
-- one: SELECT … LIMIT 1 in the order of the ids, and UPDATE … WHERE.
use mathlib.Core.Path.{◌≡◌, refl, subst}
use mathlib.Core.Logic.{inl, inr}
use mathlib.Core.Bool.{Bool, true, false}
use mathlib.Core.List.{List, [], ◌∷◌, ◌++◌}
use mathlib.Core.Option.{Option, none, some}
use native.Mathlib.Omega.{arith}
use qq_violation_bot.Prelude.Tests.{if◌then◌else◌, Bool-cases}

module _ {ℓ} {A : Type ℓ} where
  -- SELECT * … WHERE test ORDER BY id LIMIT 1
  unfoldable pub select : (A → Bool) → List A → Option A
  select test [] = none
  select test (r ∷ rs) = let rest = select test rs in if test r then some r else rest

  -- SELECT 1 … WHERE test LIMIT 1
  unfoldable pub exists : (A → Bool) → List A → Bool
  exists test [] = false
  exists test (r ∷ rs) = if test r then true else exists test rs

  -- UPDATE … SET … WHERE test
  unfoldable pub update : (A → Bool) → (A → A) → List A → List A
  update test f [] = []
  update test f (r ∷ rs) = (if test r then f r else r) ∷ update test f rs

  -- Every row satisfies `P`.
  abbrev pub All {κ} : (A → Type κ) → List A → Type κ
  All P [] = Unit
  All P (r ∷ rs) = P r × All P rs

  pub All-map {κ} : (P Q : A → Type κ) (rs : List A) → ((r : A) → P r → Q r) → All P rs → All Q rs
  All-map P Q [] f h = tt
  All-map P Q (r ∷ rs) f h = (f r h.0, All-map P Q rs f h.1)

  pub All-append {κ} :
      (P : A → Type κ) (rs : List A) (r : A) → All P rs → P r → All P (rs ++ r ∷ [])
  All-append P [] r h p = (p, tt)
  All-append P (x ∷ rs) r h p = (h.0, All-append P rs r h.1 p)

  pub All-update {κ} :
      (P Q : A → Type κ) (test : A → Bool) (f : A → A) (rs : List A)
      → ((r : A) → P r → Q (if test r then f r else r))
      → All P rs
      → All Q (update test f rs)
  unfolding update
  All-update P Q test f [] g h = tt
  All-update P Q test f (r ∷ rs) g h = (g r h.0, All-update P Q test f rs g h.1)

  pub select_test :
      (test : A → Bool) (rs : List A) (r : A) → select test rs ≡ some r → test r ≡ true
  unfolding select
  select_test test [] r e = cc
  select_test test (x ∷ rs) r e = ground (arith, select_test test rs r)

  pub All-select {κ} :
      (P : A → Type κ) (test : A → Bool) (rs : List A) (r : A)
      → All P rs
      → select test rs ≡ some r
      → P r
  unfolding select
  All-select P test [] r h e = absurd (cc)
  All-select P test (x ∷ rs) r h e = elim (Bool-cases (test x)) [
    | inl hit ↦ subst P (ground arith) h.0
    | inr miss ↦ All-select P test rs r h.1 (ground arith)
  ]

  -- A row that no test of an update meets is kept.
  pub update_none :
      (test : A → Bool) (f : A → A) (rs : List A)
      → All (λ r. test r ≡ false) rs
      → update test f rs ≡ rs
  unfolding update
  update_none test f [] h = refl
  update_none test f (r ∷ rs) h = cc (update_none test f rs h.1, h.0)

  -- A new row is found where none was.
  pub select-append :
      (test : A → Bool) (rs : List A) (r : A)
      → select test rs ≡ none
      → test r ≡ true
      → select test (rs ++ r ∷ []) ≡ some r
  unfolding select
  select-append test [] r e h = ground arith
  select-append test (x ∷ rs) r e h = ground (arith, select-append test rs r)
