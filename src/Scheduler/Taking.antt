-- ===== src/Scheduler/Taking.antt =====
-- The requests that a poll of kube-runtime/src/scheduler.rs takes in.
use kube.Prelude.{
  EqLaws, ◌≤◌, ◌≡◌, refl, sym, Result-cases, Bool, true, false, none, some, List, [], ◌∷◌, ◌==◌,
  if◌then◌else◌, ok, ready, pending, Stream, arith, inl, inr, ◌∙◌, ap, subst,
}
use kube.Scheduler.Delay.{DelayQueue, DelayQueueLaws}
use kube.Scheduler.{Scheduler, ScheduleRequest, take_requests, schedule_message}
use kube.Scheduler.Slots.{Slot, Inv, slot, offer}
use kube.Scheduler.Schedule.{schedule_message-Scheduled, schedule_message-kept}

module _ {ℓ} {A : Type ℓ} where
  -- What a stream hands out before it has to be waited for, and whether it ends there.
  abbrev pub arrived : Stream A → List A
  arrived (ready (some a) ∷ rest) = a ∷ arrived rest
  arrived (ready none ∷ rest) = []
  arrived (pending ∷ rest) = []
  arrived [] = []

  abbrev pub ended : Stream A → Bool
  ended (ready (some a) ∷ rest) = ended rest
  ended (ready none ∷ rest) = true
  ended (pending ∷ rest) = false
  ended [] = false

module _ {ℓ} {T : Type ℓ} ⦃e : EqLaws T⦄ where
  -- The slot of a message after a series of requests.
  abbrev pub offers : T → List (ScheduleRequest T) → Slot → Slot
  offers x [] o = o
  offers x (r ∷ rs) o = offers x rs (if r.message == x then offer o r.run_at else o)

module _ {ℓ} {T : Type ℓ} ⦃e : EqLaws T⦄ {d : DelayQueue T} (laws : DelayQueueLaws d) where
  pub requests-Inv :
      (s : Scheduler d) (script : Stream (ScheduleRequest T))
      → Inv laws s
      → Inv laws (record s { requests = script })
  requests-Inv s script v = record { queued = v.queued; known = v.known; disjoint = v.disjoint }

  slot-requests :
      (s : Scheduler d) (script : Stream (ScheduleRequest T)) (x : T)
      → slot (record s { requests = script }) x ≡ slot s x
  unfolding slot
  slot-requests s script x = refl

  -- No request is for a time that is too far in the future for the queue.
  abbrev pub InReach : Stream (ScheduleRequest T) → Type 0
  InReach [] = Unit
  InReach (pending ∷ rest) = InReach rest
  InReach (ready none ∷ rest) = Unit
  InReach (ready (some r) ∷ rest) = (r.run_at ≤ laws.reach) × InReach rest

  -- Every request that has arrived is offered, in order, if none panics.
  pub take_requests-kept :
      (script : Stream (ScheduleRequest T)) (s s' : Scheduler d) (over : Bool)
      → Inv laws s
      → take_requests d script s ≡ ok (over, s')
      → (over ≡ ended script)
        × Inv laws s'
        × ((x : T) → slot s' x ≡ offers x (arrived script) (slot s x))
        × (InReach script → InReach s'.requests)
  unfolding take_requests
  take_requests-kept [] s s' over v done =
      let same : record s { requests = [] } ≡ s' = ground arith in
      (
        ground arith,
        subst (Inv laws) same (requests-Inv s [] v),
        λ x. ap (λ s. slot s x) (sym same) ∙ slot-requests s [] x,
        λ h. subst (λ s. InReach s.requests) same tt,
      )
  take_requests-kept (pending ∷ rest) s s' over v done =
      let same : record s { requests = rest } ≡ s' = ground arith in
      (
        ground arith,
        subst (Inv laws) same (requests-Inv s rest v),
        λ x. ap (λ s. slot s x) (sym same) ∙ slot-requests s rest x,
        λ h. subst (λ s. InReach s.requests) same h,
      )
  take_requests-kept (ready none ∷ rest) s s' over v done =
      let same : record s { requests = ready none ∷ [] } ≡ s' = ground arith in
      (
        ground arith,
        subst (Inv laws) same (requests-Inv s (ready none ∷ []) v),
        λ x. ap (λ s. slot s x) (sym same) ∙ slot-requests s (ready none ∷ []) x,
        λ h. subst (λ s. InReach s.requests) same tt,
      )
  take_requests-kept (ready (some r) ∷ rest) s s' over v done =
      elim (Result-cases (schedule_message d s r)) [
        | inl (fault, refused) ↦ absurd (ground arith)
        | inr (s1, accepted) ↦
            let scheduled = schedule_message-kept laws s s1 r v accepted in
            let (is_over, kept, slots, near) =
              take_requests-kept rest s1 s' over scheduled.kept (ground arith) in
            (
              is_over,
              kept,
              λ x. slots x ∙ ap (offers x (arrived rest)) (scheduled.slots x),
              λ h. near h.1,
            )
      ]

  take_requests-accepts :
      (script : Stream (ScheduleRequest T)) (s : Scheduler d)
      → Inv laws s
      → InReach script
      → (over : Bool) × (s' : Scheduler d) × (take_requests d script s ≡ ok (over, s'))
  unfolding take_requests
  take_requests-accepts [] s v near = (_, _, refl)
  take_requests-accepts (pending ∷ rest) s v near = (_, _, refl)
  take_requests-accepts (ready none ∷ rest) s v near = (_, _, refl)
  take_requests-accepts (ready (some r) ∷ rest) s v near =
      let (s1, accepted, scheduled) = schedule_message-Scheduled laws s r v near.0 in
      let (over, s2, done) = take_requests-accepts rest s1 scheduled.kept near.1 in
      (over, s2, rw accepted done)

  -- Requests within reach are offered, and none panics.
  pub take_requests-offers :
      (script : Stream (ScheduleRequest T)) (s : Scheduler d)
      → Inv laws s
      → InReach script
      → (s' : Scheduler d) × (take_requests d script s ≡ ok (ended script, s'))
        × Inv laws s'
        × ((x : T) → slot s' x ≡ offers x (arrived script) (slot s x))
        × InReach s'.requests
  take_requests-offers script s v near =
      let (over, s', done) = take_requests-accepts script s v near in
      let (is_over, kept, slots, still) = take_requests-kept script s s' over v done in
      (s', done ∙ ap (λ b. ok (b, s')) is_over, kept, slots, still near)

  -- What a poll of the scheduler needs: metadata and queue agree, and requests are within reach.
  pub record Fit (s : Scheduler d) : Type ℓ where
    pub agree : Inv laws s
    pub near : InReach s.requests

  abbrev pub fit : {s : Scheduler d} → Inv laws s → InReach s.requests → Fit s
  fit v near = record { agree = v; near = near }
