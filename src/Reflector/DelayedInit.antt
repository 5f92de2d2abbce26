-- ===== src/Reflector/DelayedInit.antt =====
-- kube-runtime/src/utils/delayed_init.rs: a value that another task gives once, on which the readers of
-- a store wait. The receiver of the one-shot channel is what its polls will answer; after the answers
-- given here it is pending.
use kube.Prelude.{◌≡◌, refl, ℕ, zero, suc, List, [], ◌∷◌, Result, ok, err, Poll, pending}

-- The error of a channel whose sender is gone.
pub data Canceled : Type 0 where
  canceled : Canceled

pub data InitDropped : Type 0 where
  init_dropped : InitDropped

abbrev pub Receiver : Type 0 → Type 0
Receiver T = List (Poll (Result Canceled T))

pub data ReceiverState (T : Type 0) : Type 0 where
  waiting : Receiver T → ReceiverState T
  ready : Result InitDropped T → ReceiverState T

module _ {T : Type 0} where
  unfoldable pub new : Receiver T → ReceiverState T
  new rx = waiting rx

  abbrev pub map_err : Result Canceled T → Result InitDropped T
  map_err (ok value) = ok value
  map_err (err canceled) = err init_dropped

  -- `Get::poll`, of any reader.
  unfoldable pub poll : ReceiverState T → Poll (Result InitDropped T) × ReceiverState T
  poll (waiting []) = (pending, waiting [])
  poll (waiting (pending ∷ rx)) = (pending, waiting rx)
  poll (waiting (Poll.ready value ∷ rx)) = (Poll.ready (map_err value), ready (map_err value))
  poll (ready v) = (Poll.ready v, ready v)

  -- The answers of a number of polls, of any readers.
  abbrev pub answers : ℕ → ReceiverState T → List (Poll (Result InitDropped T))
  answers zero s = []
  answers (suc n) s = (poll s).0 ∷ answers n (poll s).1

  abbrev pub repeat : ℕ → Result InitDropped T → List (Poll (Result InitDropped T))
  repeat zero v = []
  repeat (suc n) v = Poll.ready v ∷ repeat n v

  -- The reference: pending until the first answer of the channel, and that answer for ever after.
  abbrev pub retained : ℕ → Receiver T → List (Poll (Result InitDropped T))
  retained zero rx = []
  retained (suc n) [] = pending ∷ retained n []
  retained (suc n) (pending ∷ rx) = pending ∷ retained n rx
  retained (suc n) (Poll.ready value ∷ rx) = repeat (suc n) (map_err value)

  answers-ready : (n : ℕ) (v : Result InitDropped T) → answers n (ready v) ≡ repeat n v
  unfolding poll
  answers-ready zero v = refl
  answers-ready (suc n) v = rw (answers-ready n v) refl

  -- However many readers poll, and in whatever order, they are pending until the channel answers, and
  -- all of them get its first answer, the value or that the initializer was dropped, from then on.
  pub answers-retained : (n : ℕ) (rx : Receiver T) → answers n (new rx) ≡ retained n rx
  unfolding new poll
  answers-retained zero rx = refl
  answers-retained (suc n) [] = rw (answers-retained n []) refl
  answers-retained (suc n) (pending ∷ rx) = rw (answers-retained n rx) refl
  answers-retained (suc n) (Poll.ready value ∷ rx) = rw (answers-ready n (map_err value)) refl
