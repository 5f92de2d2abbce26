-- ===== src/Scheduler/Holding.antt =====
-- `HoldUnless::poll_next` of kube-runtime/src/scheduler.rs: requests in, one message out.
use kube.Prelude.{
  EqLaws, ℕ, zero, suc, ◌≡◌, sym, find, polled_cases, Option-cases, Result-cases, Bool, true, false,
  Option, none, some, ◌==◌, ok, Poll, ready, pending, Stream, arith, inl, inr, Bool-cases, subst,
}
use kube.Prelude.HashMap
use kube.Prelude.HashMap.{get-empty}
use kube.Prelude.HashSet
use kube.Scheduler.Delay.{DelayQueue, DelayQueueLaws}
use kube.Scheduler.{
  Scheduler, ScheduleRequest, new, take_requests, hold_unless, poll_pop_queue_message,
  ScheduledEntry, pop_expired, finish_poll,
}
use kube.Scheduler.Slots.{Slot, Inv, slot, absent, held}
use kube.Scheduler.Pop.{Passed, Due, Answered}
use kube.Scheduler.Polling.{NoneTakeable, poll_pop_queue_message-Total}
use kube.Scheduler.Taking.{
  arrived, ended, offers, requests-Inv, InReach, take_requests-kept, take_requests-offers, Fit, fit,
}

module _ {ℓ} {T : Type ℓ} ⦃e : EqLaws T⦄ (d : DelayQueue T) (now : ℕ) (can_take : T → Bool) where
  -- Popping does not touch the requests.
  pop_expired-requests :
      (rounds : ℕ) (s s' : Scheduler d) (p : Poll T)
      → pop_expired d rounds now can_take s ≡ ok (p, s')
      → s'.requests ≡ s.requests
  unfolding pop_expired
  pop_expired-requests zero s s' p done = absurd cc
  pop_expired-requests (suc rounds) s s' p done = elim (polled_cases (d.poll_expired now s.queue)) [
    | inl (q, answer) ↦ ground arith
    | inr (inl (q, answer)) ↦ ground arith
    | inr (inr (m, q, answer)) ↦ ground (
      arith,
      pop_expired-requests rounds
          (record s {
            queue = q;
            scheduled = HashMap.remove m s.scheduled;
            pending = HashSet.insert m s.pending;
          })
          s' p,
    )
  ]

  poll_pop-requests :
      (s s' : Scheduler d) (p : Poll T)
      → poll_pop_queue_message d now can_take s ≡ ok (p, s')
      → s'.requests ≡ s.requests
  unfolding poll_pop_queue_message
  poll_pop-requests s s' p done = elim (Option-cases (find can_take s.pending)) [
    | inl nothing ↦ pop_expired-requests (suc (d.len s.queue)) s s' p (ground arith)
    | inr (m, found) ↦ ground arith
  ]

module _ {ℓ} {T : Type ℓ} ⦃e : EqLaws T⦄ {d : DelayQueue T} (laws : DelayQueueLaws d) where
  module _ (now : ℕ) (can_take : T → Bool)
      (can_take_cong : (a b : T) → (a == b) ≡ true → can_take a ≡ can_take b) where
    -- The slot of a message once the requests of the poll are in.
    abbrev pub offered : Scheduler d → T → Slot
    offered s x = offers x (arrived s.requests) (slot s x)

    abbrev pub Delivered : Scheduler d → Poll (Option T) → Scheduler d → Type ℓ
    Delivered s (ready none) s' = (ended s.requests ≡ true) × ((x : T) → slot s' x ≡ offered s x)
    Delivered s (ready (some msg)) s' =
        (ended s.requests ≡ false)
        × (can_take msg ≡ true)
        × Due now (offered s msg)
        × (slot s' msg ≡ absent)
        × ((x : T) → (msg == x) ≡ false → Passed now (can_take x) (offered s x) (slot s' x))
    Delivered s pending s' =
        (ended s.requests ≡ false)
        × ((x : T) → Passed now (can_take x) (offered s x) (slot s' x))
        × ((x : T) → slot s' x ≡ held → can_take x ≡ false)

    deliver :
        (s s1 : Scheduler d)
        → ended s.requests ≡ false
        → take_requests d s.requests s ≡ ok (ended s.requests, s1)
        → ((x : T) → slot s1 x ≡ offered s x)
        → (p : Poll T) (s2 : Scheduler d) → poll_pop_queue_message d now can_take s1 ≡ ok (p, s2)
        → Inv laws s2
        → Answered laws now can_take s1 p s2
        → NoneTakeable laws now can_take can_take_cong p s2
        → InReach laws s2.requests
        → (a : Poll (Option T)) × (s' : Scheduler d) × (hold_unless d now can_take s ≡ ok (a, s'))
          × Fit laws s'
          × Delivered s a s'
    unfolding hold_unless
    deliver s s1 more taken slots1 pending s2 done kept answered idle near = (
      pending,
      s2,
      rw (taken, more, done),
      fit laws kept near,
      (more, λ x. rw (← slots1 x) (answered x), idle),
    )
    deliver s s1 more taken slots1 (ready msg) s2 done kept (may, due, gone, rest) idle near = (
      ready (some msg),
      s2,
      rw (taken, more, done),
      fit laws kept near,
      (more, may, rw (← slots1 msg) due, gone, λ x ne. rw (← slots1 x) (rest x ne)),
    )

    -- Over a delay queue that keeps its laws, and with a test that tells equal messages not apart, a
    -- poll of a scheduler whose metadata and queue agree, and whose requests are all for times within
    -- the reach of the queue, always answers, without a panic, and this is so again afterwards. It
    -- ends exactly if the requests have ended, and then all that has arrived is scheduled. A message
    -- that it delivers may be taken, was held or due with the new requests counted in, and is
    -- forgotten. All other slots stay as the requests left them, but for due messages that may not be
    -- taken, which are held. If it is pending, no held message may be taken.
    pub hold_unless-Delivered :
        (s : Scheduler d)
        → Fit laws s
        → (a : Poll (Option T)) × (s' : Scheduler d) × (hold_unless d now can_take s ≡ ok (a, s'))
          × Fit laws s'
          × Delivered s a s'
    unfolding hold_unless
    hold_unless-Delivered s f =
        let (s1, taken, kept1, slots1, near1) =
          take_requests-offers laws s.requests s f.agree f.near in
        elim (Bool-cases (ended s.requests)) [
          | inl over ↦ (ready none, s1, rw (taken, over), fit laws kept1 near1, (over, slots1))
          | inr more ↦
              let (p, s2, done, kept2, answered, idle) =
                poll_pop_queue_message-Total laws now can_take can_take_cong s1 kept1 in
              let same = poll_pop-requests d now can_take s1 s2 p done in
              deliver s s1 more taken slots1 p s2 done kept2 answered idle
                (subst (InReach laws) (sym same) near1)
        ]

    -- A poll that does not panic leaves metadata and queue in agreement.
    hold_unless-kept :
        (s s' : Scheduler d) (a : Poll (Option T))
        → Inv laws s
        → hold_unless d now can_take s ≡ ok (a, s')
        → Inv laws s'
    unfolding hold_unless
    hold_unless-kept s s' a v done = elim (Result-cases (take_requests d s.requests s)) [
      | inl (fault, refused) ↦ absurd (ground arith)
      | inr ((over, s1), taken) ↦
          let (_, kept1, _, _) = take_requests-kept laws s.requests s s1 over v taken in
          elim (Bool-cases over) [
            | inl is_over ↦ subst (Inv laws) (ground arith) kept1
            | inr more ↦
                let (p, s2, popped, kept2, _, _) =
                  poll_pop_queue_message-Total laws now can_take can_take_cong s1 kept1 in
                subst (Inv laws) (finish-same p s2 (ground arith)) kept2
          ]
    ]
      where
        finish-same : (p : Poll T) (s2 : Scheduler d) → finish_poll d (p, s2) ≡ (a, s') → s2 ≡ s'
        finish-same pending s2 h = ground arith
        finish-same (ready m) s2 h = ground arith

  pub new-Inv : (requests : Stream (ScheduleRequest T)) → Inv laws (new d requests)
  unfolding new
  new-Inv requests = record {
    queued = λ m entry h. cc (get-empty {V = ScheduledEntry d.Key} m);
    known = λ k m t h. cc (laws.entry-new k);
    disjoint = λ m h. get-empty m;
  }

  -- What can become of a scheduler: polls at any time and under any test that respects equality,
  -- and other answers of the stream of requests.
  pub data Reach : Scheduler d → Type ℓ where
    fresh : (requests : Stream (ScheduleRequest T)) → Reach (new d requests)
    fed :
        {s : Scheduler d} (requests : Stream (ScheduleRequest T))
        → Reach s
        → Reach (record s { requests = requests })
    polled :
        {s s' : Scheduler d} {a : Poll (Option T)} (now : ℕ) (can_take : T → Bool)
        → ((a b : T) → (a == b) ≡ true → can_take a ≡ can_take b)
        → Reach s
        → hold_unless d now can_take s ≡ ok (a, s')
        → Reach s'

  Reach-Inv : {s : Scheduler d} → Reach s → Inv laws s
  Reach-Inv (fresh requests) = new-Inv requests
  Reach-Inv (fed {s} requests r) = requests-Inv laws s requests (Reach-Inv r)
  Reach-Inv (polled {s} {s'} {a} now can_take cong r done) =
      hold_unless-kept now can_take cong s s' a (Reach-Inv r) done

  -- Over a delay queue that keeps its laws, and with tests that tell equal messages not apart: however
  -- a scheduler was fed and polled since it was new, if the requests that it has now are for times
  -- within the reach of the queue, the next poll answers and does not panic.
  pub hold_unless-never_panics :
      {s : Scheduler d} (now : ℕ) (can_take : T → Bool)
      → ((a b : T) → (a == b) ≡ true → can_take a ≡ can_take b)
      → Reach s
      → InReach laws s.requests
      → (a : Poll (Option T)) × (s' : Scheduler d) × (hold_unless d now can_take s ≡ ok (a, s'))
  hold_unless-never_panics {s} now can_take cong r near =
      let (a, s', done, _, _) =
        hold_unless-Delivered now can_take cong s (fit laws (Reach-Inv r) near) in
      (a, s', done)
