-- ===== src/Runner/Ending.antt =====
-- How the stream of kube-runtime/src/controller/runner.rs ends.
use kube.Prelude.{
  EqLaws, ℕ, suc, ◌≡◌, Bool, true, false, Option, none, some, [], ◌∷◌, eq_refl, if◌then◌else◌, ok,
  Poll, ready, Stream, arith, subst, ◌∙◌, ap,
}
use kube.Prelude.HashMap
use kube.Prelude.HashMap.{HashMap, get-insert}
use kube.Scheduler.Delay.{DelayQueue, DelayQueueLaws}
use kube.Scheduler.{Scheduler, ScheduleRequest, hold_unless, take_requests}
use kube.Scheduler.Backlog.{backlog}
use kube.Runner.{Runner, can_run, start_messages, start_all, poll_gate, poll_slots, poll_next}
use kube.Runner.FutureHashMap
use kube.Runner.Exclusion.{insert_vacant}

module _ {ℓ} {T : Type ℓ} ⦃e : EqLaws T⦄ {d : DelayQueue T} where
  -- The scheduler ends where its requests do.
  hold_unless-end :
      (now : ℕ) (can_take : T → Bool) (s : Scheduler d) (rest : Stream (ScheduleRequest T))
      → s.requests ≡ ready none ∷ rest
      → hold_unless d now can_take s ≡ ok (ready none, record s { requests = ready none ∷ [] })
  unfolding hold_unless take_requests
  hold_unless-end now can_take s rest h = rw h

module _ {ℓ} {T F : Type ℓ} ⦃e : EqLaws T⦄ where
  contains_key-started :
      (m : HashMap T F) (msg : T) (future : F)
      → FutureHashMap.contains_key (FutureHashMap.insert msg future m).1 msg ≡ true
  unfolding FutureHashMap.contains_key FutureHashMap.insert HashMap.contains_key
  contains_key-started m msg future = ground (arith, get-insert msg msg future m, eq_refl msg)

  empty_slots :
      {O : Type ℓ} (poll : F → Poll O × F) (m m' : HashMap T F) (msg : T)
      → FutureHashMap.poll_next poll m ≡ (ready none, m')
      → FutureHashMap.contains_key m' msg ≡ false
  unfolding FutureHashMap.contains_key
  empty_slots poll m m' msg h =
      (subst (λ r. FutureHashMap.Finished poll m r.0 r.1) h
        (FutureHashMap.poll_next-Finished poll m) msg).1

module _ {ℓ} {T : Type ℓ} ⦃e : EqLaws T⦄ {d : DelayQueue T} {F W E O : Type ℓ}
    (run_msg : T → W → F × W) where
  start_messages-ends_early :
      (rounds : ℕ) (clock : ℕ → ℕ) (r : Runner d F W E) (msg : T) (s : Scheduler d)
      (rest : Stream (ScheduleRequest T))
      → FutureHashMap.contains_key r.slots msg ≡ false
      → hold_unless d (clock (suc rounds)) (can_run r.is_ready_to_execute r.slots) r.scheduler
        ≡ ok (ready (some msg), s)
      → s.requests ≡ ready none ∷ rest
      → (r' : Runner d F W E) × (start_messages d {O = O} run_msg (suc (suc rounds)) clock false r
          ≡ ok (ready none, r'))
        × (FutureHashMap.contains_key r'.slots msg ≡ true)
  unfolding start_messages
  start_messages-ends_early rounds clock r msg s rest vacant first over =
      let future = (run_msg msg r.run_state).0 in
      let slots = (FutureHashMap.insert msg future r.slots).1 in
      let second =
        hold_unless-end (clock rounds) (can_run r.is_ready_to_execute slots) s rest over in
      (
        record r {
          scheduler = record s { requests = ready none ∷ [] };
          run_state = (run_msg msg r.run_state).1;
          slots = slots;
        },
        rw (first, insert_vacant r.slots msg future vacant, second),
        contains_key-started r.slots msg future,
      )

  -- The end of the requests is seen too early: on a runner on which nothing is running and whose
  -- gate has been passed, if the scheduler hands out a message and its requests end right after
  -- that, then the poll says that the stream is at its end while the message's action is running.
  pub poll_next-ends_early :
      (laws : DelayQueueLaws d) (poll : F → Poll O × F) (clock : ℕ → ℕ) (rounds : ℕ)
      (r : Runner d F W E) (slots : HashMap T F) (msg : T) (s : Scheduler d)
      (rest : Stream (ScheduleRequest T))
      → r.stopped ≡ false
      → FutureHashMap.poll_next poll r.slots ≡ (ready none, slots)
      → r.ready_to_execute_after ≡ []
      → backlog r.scheduler ≡ suc rounds
      → hold_unless d (clock (suc rounds)) (can_run r.is_ready_to_execute slots) r.scheduler
        ≡ ok (ready (some msg), s)
      → s.requests ≡ ready none ∷ rest
      → (r' : Runner d F W E) × (poll_next d run_msg poll clock r ≡ ok (ready none, r'))
        × (FutureHashMap.contains_key r'.slots msg ≡ true)
  unfolding poll_next poll_slots poll_gate start_all
  poll_next-ends_early laws poll clock rounds r slots msg s rest running idle passed size first
        over =
      let (r', ended, started) =
        start_messages-ends_early rounds clock (record r { slots = slots }) msg s rest
          (empty_slots poll r.slots slots msg idle) first over in
      (
        r',
        ap (λ b. if b then ok (ready none, r) else poll_slots d run_msg polled clock r) running
            ∙ ap (λ p. poll_slots d run_msg p clock r) idle
            ∙ ap (λ gate. poll_gate d run_msg gate clock false r1) passed
            ∙ ap (λ n. start_messages d run_msg (suc n) clock false r1) size
            ∙ ended,
        started,
      )
    where
      polled : Poll (Option O) × HashMap T F
      polled = FutureHashMap.poll_next poll r.slots

      r1 : Runner d F W E
      r1 = record r { slots = slots }
