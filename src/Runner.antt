-- ===== src/Runner.antt =====
-- kube-runtime/src/controller/runner.rs: takes messages from a scheduler and runs an action for
-- each, one at a time for equal messages.
pub mod FutureHashMap
pub mod Exclusion
pub mod Polling
pub mod Ending
pub mod Keeping
pub mod Values
use kube.Prelude.{
  EqLaws, ℕ, zero, suc, ◌+◌, Bool, true, false, not, ◌&&◌, Option, none, some, List, [], ◌∷◌,
  length, is_some, if◌then◌else◌, Result, ok, err, ◌>>=◌, Poll, ready, pending, Stream,
}
use kube.Prelude.HashMap
use kube.Prelude.HashMap.{HashMap}
use kube.Scheduler.Delay.{DelayQueue}
use kube.Scheduler.{Scheduler, Fault, out_of_rounds, hold_unless}
use kube.Scheduler.Backlog.{backlog}

-- `Readiness` is the error of the runner's items.
pub data Error {ℓ} (ReadyErr : Type ℓ) : Type ℓ where
  readiness : ReadyErr → Error ReadyErr

-- What would end the program: a fault of the scheduler, or the failed assertion that no running
-- future is replaced.
pub data RunnerFault : Type 0 where
  in_scheduler : Fault → RunnerFault
  replaced_running_future : RunnerFault

abbrev pub lift_fault {ℓ} : {A : Type ℓ} → Result Fault A → Result RunnerFault A
lift_fault (ok a) = ok a
lift_fault (err fault) = err (in_scheduler fault)

-- `F` is a running action, `W` the state of the closure that starts them. The readiness gate is what
-- its future will answer, poll by poll.
pub record Runner {ℓ} {T : Type ℓ} (d : DelayQueue T) (F W E : Type ℓ) : Type ℓ where
  pub scheduler : Scheduler d
  pub run_state : W
  pub slots : HashMap T F
  pub ready_to_execute_after : List (Poll (Result E (Unit {0})))
  pub is_ready_to_execute : Bool
  pub stopped : Bool

module _ {ℓ} {T : Type ℓ} ⦃e : EqLaws T⦄ (d : DelayQueue T) {F W E : Type ℓ} where
  unfoldable pub new : Scheduler d → W → Runner d F W E
  new scheduler run_state = record {
    scheduler = scheduler;
    run_state = run_state;
    slots = HashMap.empty;
    ready_to_execute_after = ready (ok tt) ∷ [];
    is_ready_to_execute = false;
    stopped = false;
  }

  unfoldable pub delay_tasks_until :
      List (Poll (Result E (Unit {0}))) → Runner d F W E → Runner d F W E
  delay_tasks_until gate r = record r {
    ready_to_execute_after = gate;
    is_ready_to_execute = false;
    stopped = false;
  }

-- The test of the runner's `hold_unless`: not while the gate is shut or an equal message runs.
abbrev pub can_run {ℓ} : {T F : Type ℓ} ⦃e : EqLaws T⦄ → Bool → HashMap T F → T → Bool
can_run is_ready slots msg = is_ready && not (FutureHashMap.contains_key slots msg)

abbrev pub Polled {ℓ} : {T : Type ℓ} → DelayQueue T → Type ℓ → Type ℓ → Type ℓ → Type ℓ → Type ℓ
Polled d F W E O = Poll (Option (Result (Error E) O)) × Runner d F W E

-- The end of the loop: waiting for what still ran when the poll began, or the end of the stream.
abbrev pub finish {ℓ} : {A : Type ℓ} → Bool → Poll (Option A)
finish has_active_slots = if has_active_slots then pending else ready none

module _ {ℓ} {T : Type ℓ} ⦃e : EqLaws T⦄ (d : DelayQueue T) {F W E O : Type ℓ}
    (run_msg : T → W → F × W) where
  -- The loop that starts every message that can run. The clock is read anew in each round.
  unfoldable pub start_messages :
      ℕ → (ℕ → ℕ) → Bool → Runner d F W E → Result RunnerFault (Polled d F W E O)
  start_messages zero clock has_active_slots r = err (in_scheduler out_of_rounds)
  start_messages (suc rounds) clock has_active_slots r = do
    (answer, scheduler) ←
        lift_fault
          (hold_unless d (clock rounds) (can_run r.is_ready_to_execute r.slots) r.scheduler)
    elim answer [
      | ready (some msg) ↦
          let (msg_fut, run_state) = run_msg msg r.run_state in
          let (old, slots) = FutureHashMap.insert msg msg_fut r.slots in
          let rest =
            start_messages rounds clock has_active_slots
              (record r { scheduler = scheduler; run_state = run_state; slots = slots }) in
          if is_some old then err replaced_running_future else rest
      | ready none ↦ ok (finish has_active_slots, record r { scheduler = scheduler })
      | pending ↦ ok (pending, record r { scheduler = scheduler })
    ]

  unfoldable pub start_all : (ℕ → ℕ) → Bool → Runner d F W E → Result RunnerFault (Polled d F W E O)
  start_all clock has_active_slots r =
      start_messages (suc (backlog r.scheduler)) clock has_active_slots r

  -- The poll of the readiness gate, and what follows it.
  unfoldable pub poll_gate :
      List (Poll (Result E (Unit {0})))
      → (ℕ → ℕ)
      → Bool
      → Runner d F W E
      → Result RunnerFault (Polled d F W E O)
  poll_gate [] clock has_active_slots r = start_all clock has_active_slots r
  poll_gate (pending ∷ gate) clock has_active_slots r =
      start_all clock has_active_slots (record r { ready_to_execute_after = gate })
  poll_gate (ready (ok _) ∷ gate) clock has_active_slots r =
      start_all clock has_active_slots
        (record r { ready_to_execute_after = gate; is_ready_to_execute = true })
  poll_gate (ready (err e) ∷ gate) clock has_active_slots r =
      ok (
        ready (some (err (readiness e))),
        record r { ready_to_execute_after = gate; stopped = true },
      )

  -- What follows the poll of the running futures.
  unfoldable pub poll_slots :
      Poll (Option O) × HashMap T F
      → (ℕ → ℕ)
      → Runner d F W E
      → Result RunnerFault (Polled d F W E O)
  poll_slots (ready (some result), slots) clock r =
      ok (ready (some (ok result)), record r { slots = slots })
  poll_slots (ready none, slots) clock r =
      poll_gate r.ready_to_execute_after clock false (record r { slots = slots })
  poll_slots (pending, slots) clock r =
      poll_gate r.ready_to_execute_after clock true (record r { slots = slots })

  unfoldable pub poll_next :
      (F → Poll O × F) → (ℕ → ℕ) → Runner d F W E → Result RunnerFault (Polled d F W E O)
  poll_next poll clock r =
      if r.stopped
      then ok (ready none, r)
      else poll_slots (FutureHashMap.poll_next poll r.slots) clock r
