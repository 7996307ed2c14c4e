-- ===== src/Outbox/Steps.antt =====
-- The life of the ledger as a step relation: the calls of the delivery service in any order, by any
-- number of callers, and the operator's decisions.
use Prim.Native.Char.{Char}
use qq_violation_bot.Prelude.{ℕ, ◌≡◌, subst, Bool, Option, List, String, ok}
use qq_violation_bot.Outbox.Types.{Ledger, Claim, Outcome, Action}
use qq_violation_bot.Outbox.Ops.{
  Report, enqueue, recover, claim, release, begin_send, finish, abort_unsent, resolve,
}
use qq_violation_bot.Outbox.Valid.{IsValid}
use qq_violation_bot.Outbox.Keep.{
  IsValid-recover, IsValid-claim, IsValid-release, IsValid-finish, IsValid-abort_unsent,
  IsValid-resolve,
}
use qq_violation_bot.Outbox.Send.{KeepsValid, Starts, enqueue-KeepsValid, begin_send-Starts}

-- What the service does by itself.
pub data Automatic (l : Ledger) : Ledger → Type 0 where
  enqueued :
      (p : Report) (now k : ℕ) (b : Bool) {l' : Ledger}
      → enqueue l p now ≡ ok (k, b, l')
      → Automatic l l'
  recovered : (now : ℕ) → Automatic l (recover l now)
  claimed :
      (now : ℕ) (self : String) (key : Option ℕ) (token : ℕ)
      → Automatic l (claim l now self key token).1
  released : (c : Claim) (now : ℕ) → Automatic l (release l c now)
  begun :
      (c c' : Claim) (now : ℕ) (b : Bool) {l' : Ledger}
      → begin_send l c now ≡ ok (b, c', l')
      → Automatic l l'
  ended :
      (c : Claim) (outcome : Outcome) (now : ℕ) (receipt : List Char)
      → Automatic l (finish l c outcome now receipt).1
  aborted : (c : Claim) (now : ℕ) → Automatic l (abort_unsent l c now)

pub data Step (l : Ledger) : Ledger → Type 0 where
  by_itself : {l' : Ledger} → Automatic l l' → Step l l'
  by_operator :
      (alert : ℕ) (action : Action) (actor : List Char) (now : ℕ)
      → Step l (resolve l alert action actor now).1

pub data Reach (l : Ledger) : Ledger → Type 0 where
  here : Reach l l
  next : {l' l'' : Ledger} → Reach l l' → Step l' l'' → Reach l l''

pub data AutomaticReach (l : Ledger) : Ledger → Type 0 where
  start : AutomaticReach l l
  further : {l' l'' : Ledger} → AutomaticReach l l' → Automatic l' l'' → AutomaticReach l l''

pub IsValid-Automatic : {l l' : Ledger} → Automatic l l' → IsValid l → IsValid l'
IsValid-Automatic {l} (enqueued p now k b e) v = subst KeepsValid e (enqueue-KeepsValid l p now v)
IsValid-Automatic {l} (recovered now) v = IsValid-recover l now v
IsValid-Automatic {l} (claimed now self key token) v = IsValid-claim l now self key token v
IsValid-Automatic {l} (released c now) v = IsValid-release l c now v
IsValid-Automatic {l} (begun c c' now b e) v = subst Starts e (begin_send-Starts l c now v)
IsValid-Automatic {l} (ended c outcome now receipt) v = IsValid-finish l c outcome now receipt v
IsValid-Automatic {l} (aborted c now) v = IsValid-abort_unsent l c now v

-- Whatever the service and the operator do, in any order, a well-formed ledger stays well-formed.
pub Reach-IsValid : {l l' : Ledger} → Reach l l' → IsValid l → IsValid l'
Reach-IsValid here v = v
Reach-IsValid (next r (by_itself s)) v = IsValid-Automatic s (Reach-IsValid r v)
Reach-IsValid (next r (by_operator alert action actor now)) v =
    IsValid-resolve _ alert action actor now (Reach-IsValid r v)
