-- ===== src/Scheduler/Backlog.antt =====
-- How much work kube-runtime/src/scheduler.rs still has: every delivery uses some of it up, so a
-- consumer that polls until nothing comes is done after finitely many polls.
use kube.Prelude.{
  EqLaws, ℕ, zero, suc, ◌+◌, ◌≤◌, ◌<◌, ◌≡◌, Bool, none, some, [], ◌∷◌, ok, ready, pending, Stream,
  arith, inl, inr, Option-cases, length, find, polled_cases, Result-cases,
}
use kube.Prelude.HashMap
use kube.Prelude.HashSet
use kube.Prelude.HashSet.{length-remove-lt, length-insert-le, contains-find}
use kube.Scheduler.Delay.{DelayQueue, DelayQueueLaws}
use kube.Scheduler.{
  Scheduler, ScheduleRequest, ScheduledEntry, schedule_message, take_requests, hold_unless,
  poll_pop_queue_message, pop_expired, reschedule, schedule_new,
}
use kube.Scheduler.Slots.{Inv}
use kube.Scheduler.Schedule.{schedule_message-kept}

module _ {ℓ} {T : Type ℓ} {d : DelayQueue T} where
  abbrev pub load : Scheduler d → ℕ
  load s = length s.pending + d.len s.queue

  abbrev pub backlog : Scheduler d → ℕ
  backlog s = length s.requests + load s

module _ {ℓ} {T : Type ℓ} ⦃e : EqLaws T⦄ {d : DelayQueue T} (laws : DelayQueueLaws d) where
  load-reschedule :
      (s : Scheduler d) (r : ScheduleRequest T) (old : ScheduledEntry d.Key) (s' : Scheduler d)
      → Inv laws s
      → HashMap.get s.scheduled r.message ≡ some old
      → reschedule d s r old ≡ ok s'
      → load s' ≡ load s
  unfolding reschedule
  load-reschedule s r old s' v found done =
      let (m', _, at_key) = v.queued r.message old found in
      elim (Option-cases (d.reset_at old.queue_key r.run_at s.queue)) [
        | inl refused ↦ absurd (ground arith)
        | inr (q, reset) ↦
            let (_, same) =
              laws.reset_at_some old.queue_key r.run_at s.queue q m' old.run_at at_key reset in
            ground arith
      ]

  load-schedule_message :
      (s : Scheduler d) (r : ScheduleRequest T) (s' : Scheduler d)
      → Inv laws s
      → schedule_message d s r ≡ ok s'
      → load s' ≤ suc (load s)
  unfolding schedule_message schedule_new
  load-schedule_message s r s' v done = elim (Option-cases (HashMap.get s.scheduled r.message)) [
    | inl new ↦ elim (Option-cases (d.insert_at r.message r.run_at s.queue)) [
      | inl refused ↦ ground arith
      | inr ((key, q), inserted) ↦
          let (_, _, longer) = laws.insert_at_some r.message r.run_at s.queue q key inserted in
          ground arith
    ]
    | inr (old, found) ↦ ground (arith, load-reschedule s r old s' v found)
  ]

  -- Taking requests in turns each of them into at most one message.
  backlog-take_requests :
      (script : Stream (ScheduleRequest T)) (s s' : Scheduler d) (over : Bool)
      → Inv laws s
      → take_requests d script s ≡ ok (over, s')
      → backlog s' ≤ length script + load s
  unfolding take_requests
  backlog-take_requests [] s s' over v done = ground arith
  backlog-take_requests (pending ∷ rest) s s' over v done = ground arith
  backlog-take_requests (ready none ∷ rest) s s' over v done = ground arith
  backlog-take_requests (ready (some r) ∷ rest) s s' over v done =
      elim (Result-cases (schedule_message d s r)) [
        | inl (fault, refused) ↦ absurd (ground arith)
        | inr (s1, accepted) ↦
            let scheduled = schedule_message-kept laws s s1 r v accepted in
            let rest_done : take_requests d rest s1 ≡ ok (over, s') = rw accepted at done in
            omega (
              arith,
              load-schedule_message s r s1 v accepted,
              backlog-take_requests rest s1 s' over scheduled.kept rest_done,
            )
      ]

  load-pop_expired :
      (rounds now : ℕ) (can_take : T → Bool) (s s' : Scheduler d) (msg : T)
      → pop_expired d rounds now can_take s ≡ ok (ready msg, s')
      → backlog s' < backlog s
  unfolding pop_expired
  load-pop_expired zero now can_take s s' msg done = cc
  load-pop_expired (suc rounds) now can_take s s' msg done =
      elim (polled_cases (d.poll_expired now s.queue)) [
        | inl (q, answer) ↦ ground arith
        | inr (inl (q, answer)) ↦ ground arith
        | inr (inr (m, q, answer)) ↦
            let (_, _, _, _, _, shorter) = laws.poll_expired_some now s.queue q m answer in
            ground (
              arith,
              load-pop_expired rounds now can_take
                  (record s {
                    queue = q;
                    scheduled = HashMap.remove m s.scheduled;
                    pending = HashSet.insert m s.pending;
                  })
                  s' msg,
              length-insert-le m s.pending,
            )
      ]

  backlog-poll_pop :
      (now : ℕ) (can_take : T → Bool) (s s' : Scheduler d) (msg : T)
      → poll_pop_queue_message d now can_take s ≡ ok (ready msg, s')
      → backlog s' < backlog s
  unfolding poll_pop_queue_message
  backlog-poll_pop now can_take s s' msg done = elim (Option-cases (find can_take s.pending)) [
    | inl nothing ↦ load-pop_expired (suc (d.len s.queue)) now can_take s s' msg (ground arith)
    | inr (m, found) ↦
        ground (arith, length-remove-lt m s.pending, contains-find can_take s.pending {a = m} found)
  ]

  -- Over a delay queue that keeps its laws, on a scheduler whose metadata and queue agree, a poll
  -- that delivers a message leaves less to do: fewer answers of the request stream, held
  -- messages and queued messages in all.
  pub backlog-hold_unless :
      (now : ℕ) (can_take : T → Bool) (s s' : Scheduler d) (msg : T)
      → Inv laws s
      → hold_unless d now can_take s ≡ ok (ready (some msg), s')
      → backlog s' < backlog s
  unfolding hold_unless
  backlog-hold_unless now can_take s s' msg v done =
      elim (Result-cases (take_requests d s.requests s)) [
        | inl (fault, refused) ↦ absurd (ground arith)
        | inr ((over, s1), taken) ↦ ground (
          arith,
          backlog-take_requests s.requests s s1 over v taken,
          backlog-poll_pop now can_take s1 s' msg,
        )
      ]
