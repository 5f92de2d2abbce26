-- ===== src/Streams/Backoff.antt =====
-- kube-runtime/src/utils/stream_backoff.rs: pauses a stream after its errors. A duration is a number,
-- and so is an instant; a sleep is the instant where it ends.
use kube.Prelude.{
  ◌≡◌, refl, ap, ◌∙◌, ℕ, ◌+◌, ◌<◌, false, Option, none, some, List, [], ◌∷◌, Result, ok, err, Poll,
  ready, pending, Stream, if◌then◌else◌, leb, poll_stream, arith, inl, inr, Bool-cases, All,
}

-- The trait `Backoff` of the backoff crate.
pub record Backoff (B : Type 0) : Type 0 where
  pub next_backoff : B → Option ℕ × B
  pub reset : B → B

pub data State : Type 0 where
  backing_off : ℕ → State
  given_up awake : State

pub record StreamBackoff (A E B : Type 0) : Type 0 where
  pub stream : Stream (Result E A)
  pub backoff : B
  pub state : State

module _ {A E B : Type 0} where
  unfoldable pub new : Stream (Result E A) → B → StreamBackoff A E B
  new stream backoff = record { stream = stream; backoff = backoff; state = awake }

abbrev pub Polled : Type 0 → Type 0 → Type 0 → Type 0
Polled A E B = Poll (Option (Result E A)) × StreamBackoff A E B

-- The state after an error, from the duration of the pause.
abbrev paused : ℕ → Option ℕ → State
paused now none = given_up
paused now (some duration) = backing_off (now + duration)

-- The instants of the pause after an error, if there is an end to it.
abbrev pub Within : ℕ → Option ℕ → ℕ → Type 0
Within now none time = Unit
Within now (some duration) time = time < now + duration

module _ {A E B : Type 0} (b : Backoff B) where
  -- What becomes of an answer of the inner stream.
  unfoldable pub on_item : ℕ → Poll (Option (Result E A)) × Stream (Result E A) → B → Polled A E B
  on_item now (ready (some (err e)), stream) backoff =
      let (duration, backoff') = b.next_backoff backoff in
      (
        ready (some (err e)),
        record { stream = stream; backoff = backoff'; state = paused now duration },
      )
  on_item now (ready (some (ok a)), stream) backoff =
      (ready (some (ok a)), record { stream = stream; backoff = b.reset backoff; state = awake })
  on_item now (ready none, stream) backoff =
      (ready none, record { stream = stream; backoff = b.reset backoff; state = awake })
  on_item now (pending, stream) backoff =
      (pending, record { stream = stream; backoff = backoff; state = awake })

  -- A poll at an instant, by the state.
  unfoldable pub poll_state : ℕ → State → StreamBackoff A E B → Polled A E B
  unfolding on_item
  poll_state now (backing_off deadline) me =
      if leb deadline now then on_item now (poll_stream me.stream) me.backoff else (pending, me)
  poll_state now given_up me = (ready none, me)
  poll_state now awake me = on_item now (poll_stream me.stream) me.backoff

  unfoldable pub poll_next : ℕ → StreamBackoff A E B → Polled A E B
  unfolding poll_state
  poll_next now me = poll_state now me.state me

  -- What polls at a series of instants answer.
  abbrev pub polls : List ℕ → StreamBackoff A E B → List (Poll (Option (Result E A)))
  polls [] me = []
  polls (now ∷ times) me = (poll_next now me).0 ∷ polls times (poll_next now me).1

  -- The answer while the stream rests: pending during a pause, and the end for ever after.
  abbrev pub resting : Option ℕ → Poll (Option (Result E A))
  resting none = ready none
  resting (some duration) = pending

  poll_next-given_up :
      (now : ℕ) (me : StreamBackoff A E B)
      → me.state ≡ given_up
      → poll_next now me ≡ (ready none, me)
  unfolding poll_next poll_state
  poll_next-given_up now me h = ap (λ state. poll_state now state me) h

  poll_next-waits :
      (deadline now : ℕ) (me : StreamBackoff A E B)
      → me.state ≡ backing_off deadline
      → now < deadline
      → poll_next now me ≡ (pending, me)
  unfolding poll_next poll_state
  poll_next-waits deadline now me h early =
      let waits : leb deadline now ≡ false = ground (arith, early) in
      ap (λ state. poll_state now state me) h ∙ rw waits refl

  given_up-Resting :
      (times : List ℕ) (me : StreamBackoff A E B)
      → me.state ≡ given_up
      → All (λ answer. answer ≡ ready none) (polls times me)
  given_up-Resting [] me h = tt
  given_up-Resting (now ∷ times) me h =
      let stays = poll_next-given_up now me h in
      (rw stays refl, rw stays (given_up-Resting times me h))

  pausing-Resting :
      (deadline : ℕ) (times : List ℕ) (me : StreamBackoff A E B)
      → me.state ≡ backing_off deadline
      → All (λ now. now < deadline) times
      → All (λ answer. answer ≡ pending) (polls times me)
  pausing-Resting deadline [] me h early = tt
  pausing-Resting deadline (now ∷ times) me h early =
      let stays = poll_next-waits deadline now me h early.0 in
      (rw stays refl, rw stays (pausing-Resting deadline times me h early.1))

  rested :
      (now : ℕ) (duration : Option ℕ) (times : List ℕ) (me : StreamBackoff A E B)
      → me.state ≡ paused now duration
      → All (Within now duration) times
      → All (λ answer. answer ≡ resting duration) (polls times me)
  rested now none times me h early = given_up-Resting times me h
  rested now (some duration) times me h early = pausing-Resting (now + duration) times me h early

  on_item-state :
      (now : ℕ) (item : Poll (Option (Result E A)) × Stream (Result E A)) (backoff : B) (x : E)
      (me : StreamBackoff A E B)
      → on_item now item backoff ≡ (ready (some (err x)), me)
      → me.state ≡ paused now (b.next_backoff backoff).0
  unfolding on_item
  on_item-state now (ready (some (err y)), stream) backoff x me h = ground arith
  on_item-state now (ready (some (ok a)), stream) backoff x me h = absurd cc
  on_item-state now (ready none, stream) backoff x me h = absurd cc
  on_item-state now (pending, stream) backoff x me h = absurd cc

  poll_state-state :
      (now : ℕ) (state : State) (x : E) (me me' : StreamBackoff A E B)
      → poll_state now state me ≡ (ready (some (err x)), me')
      → me'.state ≡ paused now (b.next_backoff me.backoff).0
  unfolding poll_state
  poll_state-state now (backing_off deadline) x me me' h = elim (Bool-cases (leb deadline now)) [
    | inl over ↦ on_item-state now (poll_stream me.stream) me.backoff x me' (ground arith)
    | inr waits ↦ absurd (ground arith)
  ]
  poll_state-state now given_up x me me' h = absurd cc
  poll_state-state now awake x me me' h =
      on_item-state now (poll_stream me.stream) me.backoff x me' h

  -- After a poll that gives an error, the stream rests: if the policy has a duration, every poll
  -- before its end is pending; if it has none, every later poll says that the stream is at its end.
  pub poll_next-rests :
      (now : ℕ) (x : E) (me me' : StreamBackoff A E B) (times : List ℕ)
      → poll_next now me ≡ (ready (some (err x)), me')
      → All (Within now (b.next_backoff me.backoff).0) times
      → All (λ answer. answer ≡ resting (b.next_backoff me.backoff).0) (polls times me')
  unfolding poll_next
  poll_next-rests now x me me' times h early =
      rested now (b.next_backoff me.backoff).0 times me' (poll_state-state now me.state x me me' h)
        early
