-- ===== src/Scheduler.antt =====
-- kube-runtime/src/scheduler.rs: delays and deduplicates messages.
pub mod Delay
pub mod Slots
pub mod Schedule
pub mod Pop
pub mod Polling
pub mod Taking
pub mod Holding
pub mod Backlog
pub mod Timers
use kube.Prelude.{
  EqLaws, ℕ, zero, suc, ◌≤◌, ◌≡◌, Bool, true, false, Option, none, some, List, [], ◌∷◌, leb, find,
  if◌then◌else◌, Poll, ready, pending, Result, ok, err, ◌>>=◌, Stream,
}
use kube.Prelude.HashMap
use kube.Prelude.HashMap.{HashMap}
use kube.Prelude.HashSet
use Delay.{DelayQueue}

pub record ScheduleRequest {ℓ} (T : Type ℓ) : Type ℓ where
  pub message : T
  pub run_at : ℕ

pub record ScheduledEntry {ℓ} (Key : Type ℓ) : Type ℓ where
  pub run_at : ℕ
  pub queue_key : Key

-- What would end the program: the panics of the queue on a reset and on an insertion, the failed
-- `expect`, and for the model a loop that has used up its rounds.
pub data Fault : Type 0 where
  reset_panicked insert_panicked expired_without_metadata out_of_rounds : Fault

-- The state, without the stream of requests, which the environment answers.
pub record Scheduler {ℓ} {T : Type ℓ} (d : DelayQueue T) : Type ℓ where
  pub queue : d.Queue
  pub scheduled : HashMap T (ScheduledEntry d.Key)
  pub pending : List T
  pub requests : Stream (ScheduleRequest T)

abbrev or_fault {ℓ} : {A : Type ℓ} → Option A → Fault → Result Fault A
or_fault none e = err e
or_fault (some a) e = ok a

module _ {ℓ} {T : Type ℓ} ⦃e : EqLaws T⦄ (d : DelayQueue T) where
  unfoldable pub new : Stream (ScheduleRequest T) → Scheduler d
  new requests = record {
    queue = d.new;
    scheduled = HashMap.empty;
    pending = [];
    requests = requests;
  }

  -- An occupied entry that would run later than the request is moved forward.
  unfoldable pub reschedule :
      Scheduler d → ScheduleRequest T → ScheduledEntry d.Key → Result Fault (Scheduler d)
  reschedule s request old = do
    queue ← or_fault (d.reset_at old.queue_key request.run_at s.queue) reset_panicked
    ok (record s {
      queue = queue;
      scheduled =
          HashMap.insert request.message (record old { run_at = request.run_at }) s.scheduled;
    })

  unfoldable pub schedule_new : Scheduler d → ScheduleRequest T → Result Fault (Scheduler d)
  schedule_new s request = do
    (key, queue) ← or_fault (d.insert_at request.message request.run_at s.queue) insert_panicked
    ok (record s {
      queue = queue;
      scheduled =
          HashMap.insert request.message (record { run_at = request.run_at; queue_key = key })
            s.scheduled;
    })

  unfoldable pub schedule_message : Scheduler d → ScheduleRequest T → Result Fault (Scheduler d)
  unfolding reschedule schedule_new
  schedule_message s request =
      if HashSet.contains s.pending request.message
      then ok s
      else (elim (HashMap.get s.scheduled request.message) [
        | some old ↦ if leb request.run_at old.run_at then reschedule s request old else ok s
        | none ↦ schedule_new s request
      ])

  -- The loop over the expired messages of the queue.
  unfoldable pub pop_expired :
      ℕ → ℕ → (T → Bool) → Scheduler d → Result Fault (Poll T × Scheduler d)
  pop_expired zero now can_take s = err out_of_rounds
  pop_expired (suc rounds) now can_take s =
      let (answer, queue) = d.poll_expired now s.queue in
      elim answer [
        | ready (some msg) ↦ elim (HashMap.get s.scheduled msg) [
          | none ↦ err expired_without_metadata
          | some _ ↦
              let popped : Scheduler d = record s {
                queue = queue;
                scheduled = HashMap.remove msg s.scheduled;
              } in
              let rest =
                pop_expired rounds now can_take
                  (record popped { pending = HashSet.insert msg popped.pending }) in
              if can_take msg then ok (ready msg, popped) else rest
        ]
        | ready none ↦ ok (pending, record s { queue = queue })
        | pending ↦ ok (pending, record s { queue = queue })
      ]

  unfoldable pub poll_pop_queue_message :
      ℕ → (T → Bool) → Scheduler d → Result Fault (Poll T × Scheduler d)
  poll_pop_queue_message now can_take s = elim (find can_take s.pending) [
    | some msg ↦ ok (ready msg, record s { pending = HashSet.remove msg s.pending })
    | none ↦ pop_expired (suc (d.len s.queue)) now can_take s
  ]

  -- The loop over the requests that are there. The Boolean says that the stream has ended; it is
  -- fused, so that it answers every poll after that with its end.
  unfoldable pub take_requests :
      Stream (ScheduleRequest T) → Scheduler d → Result Fault (Bool × Scheduler d)
  take_requests [] s = ok (false, record s { requests = [] })
  take_requests (pending ∷ rest) s = ok (false, record s { requests = rest })
  take_requests (ready none ∷ rest) s = ok (true, record s { requests = ready none ∷ [] })
  take_requests (ready (some request) ∷ rest) s = do
    s' ← schedule_message s request
    take_requests rest s'

  abbrev pub finish_poll : Poll T × Scheduler d → Poll (Option T) × Scheduler d
  finish_poll (ready expired, s) = (ready (some expired), s)
  finish_poll (pending, s) = (pending, s)

  -- `HoldUnless::poll_next`.
  unfoldable pub hold_unless :
      ℕ → (T → Bool) → Scheduler d → Result Fault (Poll (Option T) × Scheduler d)
  hold_unless now can_take s = do
    (ended, s') ← take_requests s.requests s
    if ended
        then ok (ready none, s')
        else do popped ← poll_pop_queue_message now can_take s'; ok (finish_poll popped)

  -- `Scheduler::poll_next`: every message may be taken.
  unfoldable pub poll_next : ℕ → Scheduler d → Result Fault (Poll (Option T) × Scheduler d)
  unfolding hold_unless
  poll_next now = hold_unless now (λ _. true)
