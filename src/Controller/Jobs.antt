-- ===== src/Controller/Jobs.antt =====
-- The jobs of `applier` in kube-runtime/src/controller/mod.rs: how one of them ends, and which of them run
-- at a time.
use kube.Prelude.{
  EqLaws, ℕ, zero, suc, ◌+◌, ◌≡◌, ap, ◌∙◌, true, Option, some, List, [], ◌∷◌, Result, ok, err,
  arith, ◌>>=◌, Poll, ready, pending,
}
use kube.Core.Resource.{Resource}
use kube.Reflector.Store
use kube.Controller.{Action, ReconcileRequest, reconcile_request_eq}
use kube.Controller.Reschedule.{
  Readiness, Sender, RescheduleReconciliation, Request, is_over, full_for, due_after, polls, more,
  Answered, polls-Answered,
}
use kube.Controller.Reschedule
use kube.Controller.Applier.{
  Reconciler, Jobs, Job, reconciling, rescheduling, Done, start_job, rescheduled, reconciled,
  poll_job, start_found,
}

module _ {K E : Type 0} (u : Reconciler K E) where
  -- The reconciler is pending for a number of polls, and then gives a result.
  abbrev pub Gives : ℕ → u.Running → Result E Action → Type 0
  Gives zero running result = (running' : u.Running) × (u.poll running ≡ (ready result, running'))
  Gives (suc n) running result =
      (running' : u.Running) × (u.poll running ≡ (pending, running')) × Gives n running' result

-- One number of polls after the other, and one more.
abbrev rounds : ℕ → ℕ → ℕ
rounds zero m = suc m
rounds (suc n) m = suc (rounds n m)

rounds-add : (n m : ℕ) → rounds n m ≡ n + suc m
rounds-add zero m = omega arith
rounds-add (suc n) m = omega (arith, rounds-add n m)

-- A clone of the channel that is full for a number of polls.
abbrev clone : {T : Type 0} → ℕ → Readiness → List Readiness → Sender T
clone m q rest = record { readiness = full_for m (q ∷ rest); sent = [] }

module _ {K E : Type 0} (r : Resource K) ⦃e : EqLaws r.DynamicType⦄ (u : Reconciler K E)
    {Q : Type 0} where
  abbrev go_on :
      (Job r u → Poll (Done r E Q) × Job r u)
      → Poll (Done r E Q) × Job r u
      → Poll (Done r E Q) × Job r u
  go_on again (ready done, job) = (ready done, job)
  go_on again (pending, job) = again job

  -- Polls a job at the times of a clock until it is ready, a number of times at most.
  abbrev pub drive : ℕ → (ℕ → ℕ) → Job r u → Poll (Done r E Q) × Job r u
  unfolding poll_job
  drive zero clock job = (pending, job)
  drive (suc n) clock job = go_on (drive n (λ i. clock (suc i))) (poll_job r u (clock 0) job)

  -- A job that ends with a result of the reconciler, and what it has sent.
  abbrev pub Finished :
      ReconcileRequest r.DynamicType
      → Result E Action
      → List (Request r.DynamicType)
      → Poll (Done r E Q) × Job r u
      → Type 0
  Finished request result sent answer =
      (s : RescheduleReconciliation r.DynamicType E) × (answer
        ≡ (ready (ok (ok (request.obj_ref, result))), rescheduling request s))
      × (s.reschedule_tx.sent ≡ sent)

  polled-Finished :
      (k : ℕ) (clock : ℕ → ℕ) (request : ReconcileRequest r.DynamicType)
      (s s' : RescheduleReconciliation r.DynamicType E) (result : Result E Action)
      (p : Reschedule.Polled r.DynamicType E)
      → ((s1 : RescheduleReconciliation r.DynamicType E)
          → polls k s1 ≡ ok (ready result, s')
          → drive k clock (rescheduling request s1)
            ≡ (ready (ok (ok (request.obj_ref, result))), rescheduling request s'))
      → (p >>= more (polls k)) ≡ ok (ready result, s')
      → go_on (drive k clock) (rescheduled r u request s p)
        ≡ (ready (ok (ok (request.obj_ref, result))), rescheduling request s')
  polled-Finished k clock request s s' result (ok (ready x, s1)) ih h =
      ap (rescheduled r u request s) h
  polled-Finished k clock request s s' result (ok (pending, s1)) ih h = ih s1 h
  polled-Finished k clock request s s' result (err fault) ih h = absurd cc

  drive-polls :
      (k : ℕ) (clock : ℕ → ℕ) (request : ReconcileRequest r.DynamicType)
      (s s' : RescheduleReconciliation r.DynamicType E) (result : Result E Action)
      → polls k s ≡ ok (ready result, s')
      → drive k clock (rescheduling request s)
        ≡ (ready (ok (ok (request.obj_ref, result))), rescheduling request s')
  unfolding poll_job Reschedule.poll
  drive-polls zero clock request s s' result h = absurd cc
  drive-polls (suc k) clock request s s' result h =
      polled-Finished k (λ i. clock (suc i)) request s s' result (Reschedule.poll s)
        (λ s1 q. drive-polls k (λ i. clock (suc i)) request s1 s' result q) h

  reconciling-Finished :
      (n m : ℕ) (clock : ℕ → ℕ) (request : ReconcileRequest r.DynamicType) (obj : K) (q : Readiness)
      (rest : List Readiness) (running : u.Running) (result : Result E Action)
      → Gives u n running result
      → is_over q ≡ true
      → Finished request result
          (due_after (clock n) result (u.error_policy obj) request.obj_ref q)
          (drive (rounds n m) clock (reconciling request obj (clone m q rest) running))
  unfolding poll_job Reschedule.poll Reschedule.new
  reconciling-Finished zero m clock request obj q rest running result (_, p) over =
      let (s, h, sent) =
        polls-Answered m (clock 0) q rest result (u.error_policy obj) request.obj_ref [] over in
      (
        s,
        ap
              (λ t.
                go_on (drive m (λ i. clock (suc i)))
                  (reconciled r u (clock 0) request obj (clone m q rest) t))
              p
            ∙ drive-polls (suc m) clock request
                (Reschedule.new (clock 0) result (u.error_policy obj) request.obj_ref
                  (clone m q rest))
                s result h,
        sent,
      )
  reconciling-Finished (suc n) m clock request obj q rest running result (running', p, gives) over =
      rw p (
        reconciling-Finished n m (λ i. clock (suc i)) request obj q rest running' result gives over)

  found-Finished :
      (n m : ℕ) (clock : ℕ → ℕ) (request : ReconcileRequest r.DynamicType) (w : Jobs r u)
      (q : Readiness) (rest : List Readiness) (clones cs : List (List Readiness))
      (result : Result E Action) (o : Option K) {obj : K}
      → o ≡ some obj
      → cs ≡ full_for m (q ∷ rest) ∷ clones
      → Gives u n (u.reconcile obj w.state).0 result
      → is_over q ≡ true
      → Finished request result
          (due_after (clock n) result (u.error_policy obj) request.obj_ref q)
          (drive (n + suc m) clock (start_found r u request o (record w { clones = cs })).0)
  found-Finished n m clock request w q rest clones cs result o {obj = obj} found enough gives over =
      rw (found, enough, ← rounds-add n m)
        (reconciling-Finished n m clock request obj q rest (u.reconcile obj w.state).0 result gives
          over)

  -- A request whose object is in the store ends, once the reconciler gives its result, and the
  -- channel then has room or its receiver is gone, and after no more polls than these two wait: with
  -- the result for the object's reference, whether it is a success or not. What it has sent is the
  -- request for the next reconciliation, if one is due, counted from the time at which the
  -- reconciler was ready.
  pub start_job-Finished :
      (n m : ℕ) (clock : ℕ → ℕ) (request : ReconcileRequest r.DynamicType) (w : Jobs r u)
      (q : Readiness) (rest : List Readiness) (clones : List (List Readiness))
      (result : Result E Action) {obj : K}
      → Store.get r w.store request.obj_ref ≡ some obj
      → w.clones ≡ full_for m (q ∷ rest) ∷ clones
      → Gives u n (u.reconcile obj w.state).0 result
      → is_over q ≡ true
      → Finished request result
          (due_after (clock n) result (u.error_policy obj) request.obj_ref q)
          (drive (n + suc m) clock (start_job r u request w).0)
  unfolding start_job
  start_job-Finished n m clock request w q rest clones result found enough gives over =
      found-Finished n m clock request w q rest clones w.clones result
        (Store.get r w.store request.obj_ref) found enough gives over
