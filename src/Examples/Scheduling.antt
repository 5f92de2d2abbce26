-- ===== src/Examples/Scheduling.antt =====
-- Inputs for the theorems about kube-runtime/src/scheduler.rs and controller/runner.rs: messages are
-- numbers, and the delay queue is `timers`.
use kube.Prelude.{
  ℕ, suc, ◌+◌, ◌≡◌, ◌<◌, refl, Bool, true, false, Option, none, some, List, [], ◌∷◌, nat_eq, ◌==◌,
  if◌then◌else◌, Result, ok, err, Poll, ready, pending, Stream, arith, nat_beq, ltb,
}
use kube.Prelude.HashMap
use kube.Prelude.HashSet
use kube.Scheduler.Delay.{DelayQueue}
use kube.Scheduler.Timers.{timers, timers-Laws, reach-timers}
use kube.Scheduler.{
  Scheduler, ScheduleRequest, Fault, new, schedule_message, take_requests, hold_unless,
  poll_pop_queue_message, pop_expired,
}
use kube.Scheduler.Slots.{Inv}
use kube.Scheduler.Schedule.{Scheduled, schedule_message-Scheduled}
use kube.Scheduler.Pop.{Answered}
use kube.Scheduler.Polling.{NoneTakeable, poll_pop_queue_message-Total}
use kube.Scheduler.Taking.{Fit, InReach}
use kube.Scheduler.Holding.{
  Delivered, fresh, new-Inv, hold_unless-Delivered, hold_unless-never_panics,
}

abbrev queue : DelayQueue ℕ
queue = timers ℕ

abbrev at_five : ScheduleRequest ℕ
at_five = record { message = 7; run_at = 5 }

abbrev two_requests : Stream (ScheduleRequest ℕ)
two_requests =
    ready (some at_five) ∷ ready (some (record { message = 7; run_at = 2 })) ∷ pending ∷ []

abbrev start : Scheduler queue
start = new queue two_requests

start-Inv : Inv (timers-Laws ℕ) start
start-Inv = new-Inv (timers-Laws ℕ) two_requests

two_requests-InReach : InReach (timers-Laws ℕ) two_requests
two_requests-InReach = (reach-timers ℕ 5 (omega arith), (reach-timers ℕ 2 (omega arith), tt))

start-Fit : Fit (timers-Laws ℕ) start
unfolding new
start-Fit = record { agree = start-Inv; near = two_requests-InReach }

anything : ℕ → Bool
anything x = true

anything_cong : (a b : ℕ) → (a == b) ≡ true → anything a ≡ anything b
unfolding anything
anything_cong a b h = refl

schedule_message-Scheduled_example :
    (s' : Scheduler queue) × (schedule_message queue start at_five ≡ ok s')
    × Scheduled (timers-Laws ℕ) start at_five s'
schedule_message-Scheduled_example =
    schedule_message-Scheduled (timers-Laws ℕ) start at_five start-Inv
      (reach-timers ℕ 5 (omega arith))

poll_pop_queue_message-Total_example :
    (p : Poll ℕ) × (s' : Scheduler queue) × (poll_pop_queue_message queue 9 anything start
      ≡ ok (p, s'))
    × Inv (timers-Laws ℕ) s'
    × Answered (timers-Laws ℕ) 9 anything start p s'
    × NoneTakeable (timers-Laws ℕ) 9 anything anything_cong p s'
poll_pop_queue_message-Total_example =
    poll_pop_queue_message-Total (timers-Laws ℕ) 9 anything anything_cong start start-Inv

hold_unless-Delivered_example :
    (a : Poll (Option ℕ)) × (s' : Scheduler queue) × (hold_unless queue 3 anything start
      ≡ ok (a, s'))
    × Fit (timers-Laws ℕ) s'
    × Delivered (timers-Laws ℕ) 3 anything anything_cong start a s'
hold_unless-Delivered_example =
    hold_unless-Delivered (timers-Laws ℕ) 3 anything anything_cong start start-Fit

hold_unless-never_panics_example :
    (a : Poll (Option ℕ)) × (s' : Scheduler queue) × (hold_unless queue 3 anything start
      ≡ ok (a, s'))
unfolding new
hold_unless-never_panics_example =
    hold_unless-never_panics (timers-Laws ℕ) 3 anything anything_cong (fresh two_requests)
      two_requests-InReach

abbrev state_of : {A B : Type 0} → Result Fault (A × B) → B → B
state_of (ok (a, b)) other = b
state_of (err fault) other = other

-- What a run of the scheduler computes with.
running_scheduler : Unit {0}
unfolding hold_unless take_requests new schedule_message HashSet.contains HashMap.get HashMap.empty
    HashMap.insert HashMap.remove poll_pop_queue_message kube.Prelude.find pop_expired
    kube.Scheduler.Timers.scan kube.Scheduler.Timers.count anything
running_scheduler = tt

abbrev after_two : Scheduler queue
after_two = state_of (hold_unless queue 2 anything start) start

-- The later of the two requests is the earlier one to run, so the message comes at time 2.
abbrev answer_of : {A B : Type 0} → Result Fault (A × B) → Option A
answer_of (ok (a, b)) = some a
answer_of (err fault) = none

delivered_at_two : answer_of (hold_unless queue 2 anything start) ≡ some (ready (some 7))
unfolding running_scheduler
delivered_at_two = refl
