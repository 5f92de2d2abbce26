-- ===== src/Examples/Running.antt =====
-- Inputs for the theorems about kube-runtime/src/controller/runner.rs: an action is its message, and
-- the state of the closure counts the actions.
use kube.Prelude.{
  arith, ℕ, zero, suc, ◌+◌, ◌≡◌, refl, Bool, true, false, Option, none, some, List, [], ◌∷◌, nat_eq,
  Result, ok, err, Poll, ready, pending, Stream,
}
use kube.Prelude.HashMap
use kube.Prelude.HashMap.{HashMap}
use kube.Prelude.HashSet
use kube.Scheduler.{Scheduler, ScheduleRequest, hold_unless}
use kube.Scheduler
use kube.Scheduler.Timers.{timers, timers-Laws, reach-timers}
use kube.Scheduler.Holding.{new-Inv}
use kube.Runner.{Runner, can_run, poll_next}
use kube.Runner.FutureHashMap
use kube.Runner.FutureHashMap.{Finished, poll_next-Finished}
use kube.Runner.Polling.{Answers, still_running, poll_next-Answers}
use kube.Runner.Ending.{poll_next-ends_early}

abbrev requests : Stream (ScheduleRequest ℕ)
requests = ready (some (record { message = 7; run_at = 0 })) ∷ pending ∷ ready none ∷ []

abbrev scheduler : Scheduler (timers ℕ)
scheduler = Scheduler.new (timers ℕ) requests

abbrev start : Runner (timers ℕ) ℕ ℕ ℕ
start = record {
  scheduler = scheduler;
  run_state = 0;
  slots = HashMap.empty;
  ready_to_execute_after = [];
  is_ready_to_execute = true;
  stopped = false;
}

run_msg : ℕ → ℕ → ℕ × ℕ
run_msg msg count = (msg, suc count)

never : ℕ → Poll ℕ × ℕ
never future = (pending, future)

poll_next-Answers_example :
    Answers
      (timers-Laws ℕ)
      run_msg
      (still_running (timers-Laws ℕ) run_msg never start)
      start
      (poll_next (timers ℕ) run_msg never (λ round. round) start)
unfolding Scheduler.new
poll_next-Answers_example =
    poll_next-Answers (timers-Laws ℕ) run_msg never (λ round. round) start
      (record {
        agree = new-Inv (timers-Laws ℕ) requests;
        near = (reach-timers ℕ 0 (omega arith), tt);
      })

abbrev state_of : {E A B : Type 0} → Result E (A × B) → B → B
state_of (ok (a, b)) other = b
state_of (err fault) other = other

abbrev after_first : Scheduler (timers ℕ)
after_first =
    state_of (hold_unless (timers ℕ) 3 (can_run true (HashMap.empty {K = ℕ} {V = ℕ})) scheduler)
      scheduler

poll_next-ends_early_example :
    (r' : Runner (timers ℕ) ℕ ℕ ℕ) × (poll_next (timers ℕ) run_msg never (λ round. round) start
      ≡ ok (ready none, r'))
    × (FutureHashMap.contains_key r'.slots 7 ≡ true)
unfolding hold_unless FutureHashMap.poll_next HashMap.empty HashMap.len Scheduler.new
    kube.Scheduler.Timers.count Scheduler.take_requests Scheduler.schedule_message HashSet.contains
    HashMap.get Scheduler.poll_pop_queue_message kube.Prelude.find Scheduler.pop_expired
    kube.Scheduler.Timers.scan HashMap.insert FutureHashMap.contains_key HashMap.contains_key
poll_next-ends_early_example =
    poll_next-ends_early run_msg (timers-Laws ℕ) never (λ round. round) 2 start HashMap.empty 7
      after_first [] refl refl refl refl refl refl
