-- ===== src/Runner/Values.antt =====
-- kube-runtime/src/controller/runner.rs: the values that a poll of the runner gives are those of futures.
use kube.Prelude.{
  EqLaws, ℕ, zero, suc, ◌≡◌, refl, Bool, true, false, Option, none, some, List, [], ◌∷◌, Result, ok,
  err, Poll, ready, pending, arith, inl, inr, Bool-cases,
}
use kube.Prelude.HashMap.{HashMap}
use kube.Scheduler.Delay.{DelayQueue, DelayQueueLaws}
use kube.Scheduler.Backlog.{backlog}
use kube.Runner.{
  Runner, Error, RunnerFault, Polled, start_messages, start_all, poll_gate, poll_slots, poll_next,
}
use kube.Runner.FutureHashMap
use kube.Runner.FutureHashMap.{poll_entries, report}
use kube.Runner.Keeping.{Running, Good, GoodPoll, poll_next-Good}
use kube.Runner.Polling.{still_running}

module _ {ℓ} {T F O : Type ℓ} ⦃e : EqLaws T⦄ (P : F → Type ℓ) (R : O → Type ℓ) where
  GoodPoll-Running : (x : Poll (Option O) × HashMap T F) → GoodPoll P R x → Running P x.1
  GoodPoll-Running (ready (some o), m) (fine, all) = all
  GoodPoll-Running (ready none, m) all = all
  GoodPoll-Running (pending, m) all = all

module _ {ℓ} {T : Type ℓ} ⦃e : EqLaws T⦄ (d : DelayQueue T) {F W E : Type ℓ}
    (run_msg : T → W → F × W) (O : Type ℓ) where
  -- An answer that gives a value of a future.
  abbrev holds_value : Result RunnerFault (Polled d F W E O) → Bool
  holds_value (err fault) = false
  holds_value (ok (ready (some (ok o)), r)) = true
  holds_value (ok (ready (some (err x)), r)) = false
  holds_value (ok (ready none, r)) = false
  holds_value (ok (pending, r)) = false

  start_messages-holds_value :
      (rounds : ℕ) (clock : ℕ → ℕ) (active : Bool) (r : Runner d F W E)
      → holds_value (start_messages d run_msg rounds clock active r) ≡ false
  unfolding start_messages
  start_messages-holds_value zero clock active r = refl
  start_messages-holds_value (suc rounds) clock active r =
      grind (arith, start_messages-holds_value rounds clock active)

  module _ (R : O → Type ℓ) where
    -- If an answer is a value of a future, it is a good one.
    abbrev pub GoodAnswer : Poll (Option (Result (Error E) O)) → Type ℓ
    GoodAnswer (ready (some (ok o))) = R o
    GoodAnswer (ready (some (err x))) = Unit
    GoodAnswer (ready none) = Unit
    GoodAnswer pending = Unit

    abbrev pub GoodResult : Result RunnerFault (Polled d F W E O) → Type ℓ
    GoodResult (ok (a, r)) = GoodAnswer a
    GoodResult (err fault) = Unit

    none-GoodResult :
        (x : Result RunnerFault (Polled d F W E O)) → holds_value x ≡ false → GoodResult x
    none-GoodResult (err fault) nv = tt
    none-GoodResult (ok (ready (some (ok o)), r)) nv = absurd cc
    none-GoodResult (ok (ready (some (err x)), r)) nv = tt
    none-GoodResult (ok (ready none, r)) nv = tt
    none-GoodResult (ok (pending, r)) nv = tt

    start_all-GoodResult :
        (clock : ℕ → ℕ) (active : Bool) (r : Runner d F W E)
        → GoodResult (start_all d run_msg clock active r)
    unfolding start_all
    start_all-GoodResult clock active r =
        none-GoodResult _ (start_messages-holds_value (suc (backlog r.scheduler)) clock active r)

    poll_gate-GoodResult :
        (gate : List (Poll (Result E (Unit {0})))) (clock : ℕ → ℕ) (active : Bool)
        (r : Runner d F W E)
        → GoodResult (poll_gate d run_msg gate clock active r)
    unfolding poll_gate
    poll_gate-GoodResult [] clock active r = start_all-GoodResult clock active r
    poll_gate-GoodResult (pending ∷ gate) clock active r = start_all-GoodResult clock active _
    poll_gate-GoodResult (ready (ok u) ∷ gate) clock active r = start_all-GoodResult clock active _
    poll_gate-GoodResult (ready (err x) ∷ gate) clock active r = tt

    module _ (P : F → Type ℓ) (poll : F → Poll O × F)
        (good : (f : F) → P f → Good P R (poll f)) where
      poll_slots-GoodResult :
          (x : Poll (Option O) × HashMap T F) (clock : ℕ → ℕ) (r : Runner d F W E)
          → GoodPoll P R x
          → GoodResult (poll_slots d run_msg x clock r)
      unfolding poll_slots
      poll_slots-GoodResult (ready (some o), slots) clock r (fine, all) = fine
      poll_slots-GoodResult (ready none, slots) clock r all = poll_gate-GoodResult _ clock false _
      poll_slots-GoodResult (pending, slots) clock r all = poll_gate-GoodResult _ clock true _

      -- A value that a poll of the runner gives is good, if the futures that run are.
      pub poll_next-GoodResult :
          (clock : ℕ → ℕ) (r : Runner d F W E)
          → Running P r.slots
          → GoodResult (poll_next d run_msg poll clock r)
      unfolding poll_next
      poll_next-GoodResult clock r all = elim (Bool-cases r.stopped) [
        | inl over ↦ simp over tt
        | inr running ↦ simp running (
            poll_slots-GoodResult (FutureHashMap.poll_next poll r.slots) clock r
              (poll_next-Good P R poll good r.slots all))
      ]

module _ {ℓ} {T : Type ℓ} ⦃e : EqLaws T⦄ {d : DelayQueue T} (laws : DelayQueueLaws d)
    {F W E : Type ℓ} (run_msg : T → W → F × W) {O : Type ℓ} (P : F → Type ℓ) (R : O → Type ℓ)
    (poll : F → Poll O × F) (good : (f : F) → P f → Good P R (poll f)) where
  -- The predicate holds of the futures that a poll leaves running.
  pub still_running-Running :
      (r : Runner d F W E) → Running P r.slots → Running P (still_running laws run_msg poll r)
  still_running-Running r all = elim (Bool-cases r.stopped) [
    | inl over ↦ simp over all
    | inr running ↦ simp running (
        GoodPoll-Running P R (FutureHashMap.poll_next poll r.slots)
          (poll_next-Good P R poll good r.slots all))
  ]
