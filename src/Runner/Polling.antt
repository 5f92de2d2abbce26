-- ===== src/Runner/Polling.antt =====
-- `poll_next` of kube-runtime/src/controller/runner.rs as a whole.
use kube.Prelude.{
  EqLaws, ℕ, suc, ◌≡◌, refl, Bool, true, false, Option, none, some, List, [], ◌∷◌, if◌then◌else◌,
  Result, ok, err, Poll, ready, pending, arith, inl, inr, Bool-cases,
}
use kube.Prelude.HashMap.{HashMap}
use kube.Scheduler.Delay.{DelayQueue, DelayQueueLaws}
use kube.Scheduler.Taking.{Fit}
use kube.Scheduler.Backlog.{backlog}
use kube.Runner.{
  Runner, Error, RunnerFault, readiness, Polled, start_all, poll_gate, poll_slots, poll_next,
}
use kube.Runner.FutureHashMap
use kube.Runner.Exclusion.{Starts, start_messages-Ends}

module _ {ℓ} {T : Type ℓ} ⦃e : EqLaws T⦄ {d : DelayQueue T} (laws : DelayQueueLaws d)
    {F W E : Type ℓ} (run_msg : T → W → F × W) where
  -- What a poll does once the running futures are polled and have left `slots`.
  pub record Ran (slots : HashMap T F) (r r' : Runner d F W E) : Type ℓ where
    pub kept : Fit laws r'.scheduler
    pub msgs : List T
    pub started : Starts run_msg msgs slots r.run_state r'.slots r'.run_state
    pub gated : r'.is_ready_to_execute ≡ false → msgs ≡ []

  idle-Ran :
      (r r' : Runner d F W E)
      → Fit laws r'.scheduler
      → r'.run_state ≡ r.run_state
      → Ran r'.slots r r'
  idle-Ran r r' kept same = record {
    kept = kept;
    msgs = [];
    started = (refl, same);
    gated = λ h. refl;
  }

  module _ {O : Type ℓ} where
    abbrev pub Answers :
        HashMap T F → Runner d F W E → Result RunnerFault (Polled d F W E O) → Type ℓ
    Answers slots r answer =
        (a : Poll (Option (Result (Error E) O))) × (r' : Runner d F W E) × (answer ≡ ok (a, r'))
        × Ran slots r r'

    start_all-Answers :
        (clock : ℕ → ℕ) (active : Bool) (r r1 : Runner d F W E)
        → Fit laws r1.scheduler
        → r1.run_state ≡ r.run_state
        → Answers r1.slots r (start_all d run_msg clock active r1)
    unfolding start_all
    start_all-Answers clock active r r1 v same =
        let (a, r', ended, loop) =
          start_messages-Ends laws run_msg (suc (backlog r1.scheduler)) clock active r1 v
            (omega arith) in
        (
          a,
          r',
          ended,
          record {
            kept = loop.kept;
            msgs = loop.msgs;
            started = rw (← same) loop.started;
            gated = λ h. loop.gated (ground (arith, loop.same_ready));
          },
        )

    poll_gate-Answers :
        (gate : List (Poll (Result E (Unit {0})))) (clock : ℕ → ℕ) (active : Bool)
        (r r1 : Runner d F W E)
        → Fit laws r1.scheduler
        → r1.run_state ≡ r.run_state
        → Answers r1.slots r (poll_gate d run_msg gate clock active r1)
    unfolding poll_gate
    poll_gate-Answers [] clock active r r1 v same = start_all-Answers clock active r r1 v same
    poll_gate-Answers (pending ∷ gate) clock active r r1 v same =
        start_all-Answers clock active r (record r1 { ready_to_execute_after = gate }) v same
    poll_gate-Answers (ready (ok u) ∷ gate) clock active r r1 v same =
        start_all-Answers clock active r
          (record r1 { ready_to_execute_after = gate; is_ready_to_execute = true }) v same
    poll_gate-Answers (ready (err x) ∷ gate) clock active r r1 v same = (
      ready (some (err (readiness x))),
      _,
      refl,
      idle-Ran r (record r1 { ready_to_execute_after = gate; stopped = true }) v same,
    )

    poll_slots-Answers :
        (p : Poll (Option O)) (slots : HashMap T F) (clock : ℕ → ℕ) (r : Runner d F W E)
        → Fit laws r.scheduler
        → Answers slots r (poll_slots d run_msg (p, slots) clock r)
    unfolding poll_slots
    poll_slots-Answers (ready (some result)) slots clock r v =
        (ready (some (ok result)), _, refl, idle-Ran r (record r { slots = slots }) v refl)
    poll_slots-Answers (ready none) slots clock r v =
        poll_gate-Answers r.ready_to_execute_after clock false r (record r { slots = slots }) v refl
    poll_slots-Answers pending slots clock r v =
        poll_gate-Answers r.ready_to_execute_after clock true r (record r { slots = slots }) v refl

    -- The futures that still run once they are polled; a stopped runner does not poll them.
    abbrev pub still_running : (F → Poll O × F) → Runner d F W E → HashMap T F
    still_running poll r = if r.stopped then r.slots else (FutureHashMap.poll_next poll r.slots).1

    -- Over a delay queue that keeps its laws, if metadata and queue of the scheduler agree and its
    -- requests are all for times within the reach of the queue, a poll of the runner always answers:
    -- the loop ends, the scheduler does not panic, and no running future is replaced. What it starts
    -- is a series of messages none of which equals a message that is running at that moment, and it
    -- starts none unless the readiness gate has opened. Afterwards the scheduler is as required again.
    pub poll_next-Answers :
        (poll : F → Poll O × F) (clock : ℕ → ℕ) (r : Runner d F W E)
        → Fit laws r.scheduler
        → Answers (still_running poll r) r (poll_next d run_msg poll clock r)
    unfolding poll_next
    poll_next-Answers poll clock r v = elim (Bool-cases r.stopped) [
      | inl over ↦ (ready none, r, rw over, simp over (idle-Ran r r v refl))
      | inr running ↦ simp running (
          poll_slots-Answers (FutureHashMap.poll_next poll r.slots).0
            (FutureHashMap.poll_next poll r.slots).1 clock r v)
    ]
