-- ===== src/Features/Model.antt =====
-- A start without the primary provider: the gateway is on only with the other model.
use qq_violation_bot.Prelude.{
  ◌≡◌, Bool, true, false, not, ◌&&◌, ◌||◌, Option, none, some, List, String, ℕ, if-ind,
  Option-cases, inl, inr, arith,
}
use qq_violation_bot.Features.Types.{
  Switch, FeatureState, Capabilities, llm_gateway_enabled, economy_mode_enabled,
}
use qq_violation_bot.Features.Files.{Fault, no_fault, at_backup, at_file, Controller, replace_state}
use qq_violation_bot.Features.State.{
  set_switches, validate_switches, with_changes, get_change, or_old, is_change, is_none, reply,
  Reply, disables_chat_model, enables_primary,
}

-- Without the primary provider, the gateway is on only in economy mode.
abbrev pub HasModel : Capabilities → FeatureState → Type 0
HasModel caps s =
    caps.primary_provider_available ≡ false
    → s.switch llm_gateway_enabled ≡ true
    → s.switch economy_mode_enabled ≡ true

unchanged_or_on :
    (a b : Option Bool) (g e : Bool)
    → ((is_change a || is_change b) && (or_old a g && not (or_old b e))) ≡ false
    → (g ≡ true → e ≡ true)
    → or_old a g ≡ true
    → or_old b e ≡ true
unchanged_or_on none none g e free old on = old on
unchanged_or_on none (some b) g e free old on = ground (arith, free)
unchanged_or_on (some a) none g e free old on = ground (arith, free)
unchanged_or_on (some a) (some b) g e free old on = ground (arith, free)

HasModel-with_changes :
    (caps : Capabilities) (s : FeatureState) (changes : List (Switch × Bool)) (actor at : String)
    → (not caps.primary_provider_available
        && (disables_chat_model s changes || enables_primary s changes))
      ≡ false
    → HasModel caps s
    → HasModel caps (with_changes s changes actor at)
HasModel-with_changes caps s changes actor at free v missing_ on =
    unchanged_or_on (get_change llm_gateway_enabled changes)
      (get_change economy_mode_enabled changes) (s.switch llm_gateway_enabled)
      (s.switch economy_mode_enabled) (ground (arith, free, missing_)) (v missing_) on

module _ {Input : Type 0} (read : Input → Option ℕ) (print : ℕ → Input) where
  abbrev Kept : Reply × Controller Input → Type 0
  Kept r = HasModel r.1.capabilities r.1.state

  Kept-replace_state :
      (fault : Fault) (c : Controller Input) (s : FeatureState)
      → HasModel c.capabilities c.state
      → HasModel c.capabilities s
      → Kept (reply (replace_state read print fault c s))
  unfolding replace_state
  Kept-replace_state no_fault c s v w = w
  Kept-replace_state at_backup c s v w = v
  Kept-replace_state at_file c s v w = v

  -- Without the primary provider, where the gateway is on only in economy mode, that is so after
  -- every change of switches, refused, failed or made.
  pub set_switches-HasModel :
      (fault : Fault) (c : Controller Input) (changes : List (Switch × Bool)) (actor at : String)
      → HasModel c.capabilities c.state
      → HasModel
          (set_switches read print fault c changes actor at).1.capabilities
          (set_switches read print fault c changes actor at).1.state
  unfolding set_switches
  set_switches-HasModel fault c changes actor at v =
      if-ind Kept (is_none changes) (λ _. v)
        (λ _. elim (Option-cases (validate_switches c.capabilities changes)) [
          | inr (e, bad) ↦ rw bad v
          | inl good ↦ rw good (
              if-ind Kept
                (not c.capabilities.primary_provider_available
                  && (disables_chat_model c.state changes || enables_primary c.state changes))
                (λ _. v)
                (λ free.
                  Kept-replace_state fault c (with_changes c.state changes actor at) v
                    (HasModel-with_changes c.capabilities c.state changes actor at free v)))
        ])
