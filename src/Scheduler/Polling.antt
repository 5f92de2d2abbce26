-- ===== src/Scheduler/Polling.antt =====
-- The polls of kube-runtime/src/scheduler.rs: the loop over expired messages, and what
-- `HoldUnless` makes of it.
use kube.Prelude.{
  EqLaws, ℕ, zero, suc, ◌<◌, ◌≡◌, refl, sym, Bool, true, false, none, some, List, [], ◌∷◌, ◌==◌,
  eq_refl, Result, ok, Poll, ready, pending, arith, inl, inr, ◌∙◌, Bool-cases, Option-cases,
  polled_cases, find, find-holds,
}
use kube.Prelude.HashSet
use kube.Prelude.HashSet.{contains_cong, contains-remove, contains-find}
use kube.Scheduler.Delay.{DelayQueue, DelayQueueLaws}
use kube.Scheduler.{Fault, Scheduler, pop_expired, poll_pop_queue_message}
use kube.Scheduler.Slots.{Inv, slot, held}
use kube.Scheduler.Pop.{
  Passed, Passed-trans, Passed-Due, Answered, popped, set_aside, popped-Inv, slot-popped,
  set_aside-Inv, slot-set_aside, slot-msg,
}

module _ {ℓ} {T : Type ℓ} ⦃e : EqLaws T⦄ {d : DelayQueue T} (laws : DelayQueueLaws d) (now : ℕ)
    (can_take : T → Bool)
    (can_take_cong : (a b : T) → (a == b) ≡ true → can_take a ≡ can_take b) where
  -- Two polls in a row, the first of which changed only what a poll may change.
  after-Answered :
      (s s' : Scheduler d) (p : Poll T) (s'' : Scheduler d)
      → ((x : T) → Passed now (can_take x) (slot s x) (slot s' x))
      → Answered laws now can_take s' p s''
      → Answered laws now can_take s p s''
  after-Answered s s' pending s'' first rest =
      λ x. Passed-trans now (can_take x) (slot s x) (slot s' x) (slot s'' x) (first x) (rest x)
  after-Answered s s' (ready msg) s'' first (may, due, gone, rest) = (
    may,
    Passed-Due now (can_take msg) (slot s msg) (slot s' msg) (first msg) due,
    gone,
    λ x ne. Passed-trans now (can_take x) (slot s x) (slot s' x) (slot s'' x) (first x) (rest x ne),
  )

  abbrev Total : Scheduler d → Result Fault (Poll T × Scheduler d) → Type ℓ
  Total s r =
      (p : Poll T) × (s' : Scheduler d) × (r ≡ ok (p, s'))
      × Inv laws s'
      × Answered laws now can_take s p s'

  same_entries-Inv :
      (s : Scheduler d) (q : d.Queue)
      → Inv laws s
      → ((j : d.Key) → laws.entry q j ≡ laws.entry s.queue j)
      → Inv laws (record s { queue = q })
  same_entries-Inv s q v same = record {
    queued = λ x entry h.
        let (y, eq, at_key) = v.queued x entry h in (y, eq, same entry.queue_key ∙ at_key);
    known = λ j x u h. v.known j x u (sym (same j) ∙ h);
    disjoint = v.disjoint;
  }

  slot-queue : (s : Scheduler d) (q : d.Queue) (x : T) → slot (record s { queue = q }) x ≡ slot s x
  unfolding slot
  slot-queue s q x = refl

  -- With more rounds than queued messages, the loop ends with an answer.
  pop_expired-Total :
      (rounds : ℕ) (s : Scheduler d)
      → Inv laws s
      → d.len s.queue < rounds
      → Total s (pop_expired d rounds now can_take s)
  unfolding pop_expired
  pop_expired-Total zero s v enough = absurd (omega arith)
  pop_expired-Total (suc rounds) s v enough = elim (polled_cases (d.poll_expired now s.queue)) [
    | inl (q, answer) ↦
        let same = laws.poll_expired_pending now s.queue q answer in
        (
          pending,
          record s { queue = q },
          ground arith,
          same_entries-Inv s q v same,
          λ x. inl (slot-queue s q x),
        )
    | inr (inl (q, answer)) ↦
        let same = laws.poll_expired_none now s.queue q answer in
        (
          pending,
          record s { queue = q },
          ground arith,
          same_entries-Inv s q v same,
          λ x. inl (slot-queue s q x),
        )
    | inr (inr (msg, q, answer)) ↦
        let (k, t, at_key, le, left, shorter) = laws.poll_expired_some now s.queue q msg answer in
        let (entry, found, _, _) = v.known k msg t at_key in
        elim (Bool-cases (can_take msg)) [
          | inl may ↦ (
            ready msg,
            popped laws s v q msg k t at_key left,
            ground arith,
            popped-Inv laws s v q msg k t at_key left,
            (
              may,
              inr (t, slot-msg laws s v q msg k t at_key left msg (eq_refl msg), le),
              ground (arith, slot-popped laws s v q msg k t at_key left msg, eq_refl msg),
              λ x ne. inl (ground (arith, slot-popped laws s v q msg k t at_key left x)),
            ),
          )
          | inr not_now ↦
              let s' = set_aside laws s v q msg k t at_key left in
              let (p, s'', done, kept, answered) =
                pop_expired-Total rounds s' (set_aside-Inv laws s v q msg k t at_key left)
                  (omega arith) in
              (
                p,
                s'',
                ground arith,
                kept,
                after-Answered s s' p s''
                    (λ x. elim (Bool-cases (msg == x)) [
                      | inl eq ↦ inr (
                        t,
                        slot-msg laws s v q msg k t at_key left x eq,
                        le,
                        ground (arith, slot-set_aside laws s v q msg k t at_key left x),
                        ground (arith, can_take_cong msg x),
                      )
                      | inr ne ↦
                          inl (ground (arith, slot-set_aside laws s v q msg k t at_key left x))
                    ])
                    answered,
              )
        ]
  ]

  slot-held : (s : Scheduler d) (x : T) → slot s x ≡ held → HashSet.contains s.pending x ≡ true
  unfolding slot
  slot-held s x h = ground arith

  -- A search that finds nothing has seen every message of the set.
  find-none :
      (xs : List T) (x : T)
      → find can_take xs ≡ none
      → HashSet.contains xs x ≡ true
      → can_take x ≡ false
  unfolding find HashSet.contains
  find-none [] x h c = cc
  find-none (y ∷ xs) x h c = ground (arith, find-none xs x, can_take_cong y x)

  abbrev pub NoneTakeable : Poll T → Scheduler d → Type ℓ
  NoneTakeable (ready msg) s = Unit
  NoneTakeable pending s = (x : T) → slot s x ≡ held → can_take x ≡ false

  Answered-NoneTakeable :
      (s : Scheduler d) (p : Poll T) (s' : Scheduler d)
      → find can_take s.pending ≡ none
      → Answered laws now can_take s p s'
      → NoneTakeable p s'
  Answered-NoneTakeable s (ready msg) s' h answered = tt
  Answered-NoneTakeable s pending s' h answered = λ x is_held. elim (answered x) [
    | inl same ↦ find-none s.pending x h (slot-held s x (ground arith))
    | inr (_, _, _, _, may) ↦ may
  ]

  taken_from_pending :
      (s : Scheduler d) (msg : T)
      → Inv laws s
      → find can_take s.pending ≡ some msg
      → Inv laws (record s { pending = HashSet.remove msg s.pending })
        × Answered laws now can_take s
            (ready msg)
            (record s { pending = HashSet.remove msg s.pending })
  unfolding slot
  taken_from_pending s msg v found =
      let there = contains-find can_take s.pending found in
      (
        record {
          queued = v.queued;
          known = v.known;
          disjoint = λ x h. ground (arith, contains-remove msg x s.pending, v.disjoint x);
        },
        (
          find-holds can_take s.pending found,
          inl (ground arith),
          ground (arith, contains-remove msg msg s.pending, eq_refl msg, v.disjoint msg),
          λ x ne. inl (ground (arith, contains-remove msg x s.pending)),
        ),
      )

  -- Over a delay queue that keeps its laws, on a scheduler whose metadata and queue agree, and with a
  -- test that tells equal messages not apart, the poll of the queue answers, without a panic:
  -- they agree afterwards; a message that is handed out may be taken, was held or due, and is
  -- forgotten; any other slot stays, but for due messages that may not be taken, which are held; and
  -- when nothing is handed out, no held message could have been.
  pub poll_pop_queue_message-Total :
      (s : Scheduler d)
      → Inv laws s
      → (p : Poll T) × (s' : Scheduler d) × (poll_pop_queue_message d now can_take s ≡ ok (p, s'))
        × Inv laws s'
        × Answered laws now can_take s p s'
        × NoneTakeable p s'
  unfolding poll_pop_queue_message
  poll_pop_queue_message-Total s v = elim (Option-cases (find can_take s.pending)) [
    | inl nothing ↦
        let (p, s', done, kept, answered) =
          pop_expired-Total (suc (d.len s.queue)) s v (omega arith) in
        (
          p,
          s',
          rw (nothing, poll_pop_queue_message) done,
          kept,
          answered,
          Answered-NoneTakeable s p s' nothing answered,
        )
    | inr (msg, found) ↦
        let (kept, answered) = taken_from_pending s msg v found in
        (
          ready msg,
          record s { pending = HashSet.remove msg s.pending },
          rw (found, poll_pop_queue_message),
          kept,
          answered,
          tt,
        )
  ]
