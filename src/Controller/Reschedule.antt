-- ===== src/Controller/Reschedule.antt =====
-- `RescheduleReconciliation` of kube-runtime/src/controller/mod.rs: hands on the result of a
-- reconciliation, after the request for the next one was sent. The channel is what its polls for room
-- will answer, and what was sent on it.
use kube.Prelude.{
  ◌≡◌, refl, sym, append-nil, ℕ, zero, suc, ◌+◌, Bool, true, false, Option, none, some, is_some,
  List, [], ◌∷◌, ◌++◌, Result, ok, err, ◌>>=◌, Poll, ready, pending,
}
use kube.Reflector.ObjectRef.{ObjectRef}
use kube.Scheduler.{ScheduleRequest}
use kube.Controller.{
  Action, ReconcileRequest, ReconcileReason, error_policy_requested_retry,
  reconciler_requested_retry,
}

-- A poll for room: none yet, room, or a receiver that is gone.
pub data Readiness : Type 0 where
  full room disconnected : Readiness

pub record Sender (T : Type 0) : Type 0 where
  pub readiness : List Readiness
  pub sent : List T

-- The panic of a future that is polled after it was ready.
pub data TakenFault : Type 0 where
  result_already_taken : TakenFault

pub record RescheduleReconciliation (D E : Type 0) : Type 0 where
  pub reschedule_tx : Sender (ScheduleRequest (ReconcileRequest D))
  pub reschedule_request : Option (ScheduleRequest (ReconcileRequest D))
  pub result : Option (Result E Action)

abbrev pub Request : Type 0 → Type 0
Request D = ScheduleRequest (ReconcileRequest D)

abbrev next_action : {E : Type 0} → (E → Action) → Result E Action → Action × ReconcileReason
next_action error_policy (ok action) = (action, reconciler_requested_retry)
next_action error_policy (err e) = (error_policy e, error_policy_requested_retry)

-- Time has no last instant here, so that the sum of an instant and a duration does not overflow.
abbrev request_in : {D : Type 0} → ℕ → ObjectRef D → ReconcileReason → Option ℕ → Option (Request D)
request_in finished_at obj_ref reason none = none
request_in finished_at obj_ref reason (some requeue_after) = some (record {
  message = record { obj_ref = obj_ref; reason = reason };
  run_at = finished_at + requeue_after;
})

-- The request for the next reconciliation, if there is to be one.
unfoldable pub request_after :
    {D E : Type 0} → ℕ → Result E Action → (E → Action) → ObjectRef D → Option (Request D)
request_after now result error_policy obj_ref =
    let (action, reason) = next_action error_policy result in
    request_in now obj_ref reason action.requeue_after

-- What is sent: nothing if there is no request, or if the receiver is gone.
abbrev pub sends : {D : Type 0} → Option (Request D) → Readiness → List (Request D)
sends none r = []
sends (some request) room = request ∷ []
sends (some request) disconnected = []
sends (some request) full = []

abbrev pub is_over : Readiness → Bool
is_over full = false
is_over room = true
is_over disconnected = true

-- A channel that has no room for a number of polls.
abbrev pub full_for : ℕ → List Readiness → List Readiness
full_for zero rs = rs
full_for (suc n) rs = full ∷ full_for n rs

abbrev pub Polled : Type 0 → Type 0 → Type 0
Polled D E = Result TakenFault (Poll (Result E Action) × RescheduleReconciliation D E)

module _ {D : Type 0} where
  -- What should be sent for a delay: nothing without one, or if the receiver is gone.
  abbrev due : ℕ → Option ℕ → ReconcileReason → ObjectRef D → Readiness → List (Request D)
  due now none reason obj_ref r = []
  due now (some delay) reason obj_ref room =
      record { message = record { obj_ref = obj_ref; reason = reason }; run_at = now + delay } ∷ []
  due now (some delay) reason obj_ref full = []
  due now (some delay) reason obj_ref disconnected = []

  sends-due :
      (now : ℕ) (delay : Option ℕ) (reason : ReconcileReason) (obj_ref : ObjectRef D)
      (r : Readiness)
      → sends (request_in now obj_ref reason delay) r ≡ due now delay reason obj_ref r
  sends-due now none reason obj_ref r = refl
  sends-due now (some delay) reason obj_ref full = refl
  sends-due now (some delay) reason obj_ref room = refl
  sends-due now (some delay) reason obj_ref disconnected = refl

module _ {D E : Type 0} where
  -- The clock is read once.
  unfoldable pub new :
      ℕ
      → Result E Action
      → (E → Action)
      → ObjectRef D
      → Sender (Request D)
      → RescheduleReconciliation D E
  unfolding request_after
  new now result error_policy obj_ref reschedule_tx = record {
    reschedule_tx = reschedule_tx;
    reschedule_request = request_after now result error_policy obj_ref;
    result = some result;
  }

  abbrev take_result : Option (Result E Action) → RescheduleReconciliation D E → Polled D E
  take_result (some result) s = ok (ready result, record s { result = none })
  take_result none s = err result_already_taken

  -- The state once the request was dealt with.
  abbrev without_request :
      List Readiness
      → List (Request D)
      → RescheduleReconciliation D E
      → RescheduleReconciliation D E
  without_request readiness sent s = record s {
    reschedule_tx = record { readiness = readiness; sent = sent };
    reschedule_request = none;
  }

  abbrev with_request : Request D → List Readiness → RescheduleReconciliation D E → Polled D E
  with_request request [] s = ok (pending, s)
  with_request request (full ∷ rs) s =
      ok (
        pending,
        record s { reschedule_tx = record { readiness = rs; sent = s.reschedule_tx.sent } },
      )
  with_request request (room ∷ rs) s =
      take_result s.result (without_request rs (s.reschedule_tx.sent ++ (request ∷ [])) s)
  with_request request (disconnected ∷ rs) s =
      take_result s.result (without_request rs s.reschedule_tx.sent s)

  abbrev poll_request : Option (Request D) → RescheduleReconciliation D E → Polled D E
  poll_request none s = take_result s.result s
  poll_request (some request) s = with_request request s.reschedule_tx.readiness s

  unfoldable pub poll : RescheduleReconciliation D E → Polled D E
  poll s = poll_request s.reschedule_request s

  -- The result is there.
  abbrev pub Sound : RescheduleReconciliation D E → Type 0
  Sound s = is_some s.result ≡ true

  abbrev pub SoundPoll : Polled D E → Type 0
  SoundPoll (ok (ready result, s)) = Unit
  SoundPoll (ok (pending, s)) = Sound s
  SoundPoll (err fault) = ⊥

  take_result-Sound :
      (result : Option (Result E Action)) (s : RescheduleReconciliation D E)
      → is_some result ≡ true
      → SoundPoll (take_result result s)
  take_result-Sound (some result) s sound = tt
  take_result-Sound none s sound = absurd cc

  with_request-Sound :
      (request : Request D) (rs : List Readiness) (s : RescheduleReconciliation D E)
      → Sound s
      → SoundPoll (with_request request rs s)
  with_request-Sound request [] s sound = sound
  with_request-Sound request (full ∷ rs) s sound = sound
  with_request-Sound request (room ∷ rs) s sound = take_result-Sound s.result _ sound
  with_request-Sound request (disconnected ∷ rs) s sound = take_result-Sound s.result _ sound

  poll_request-Sound :
      (request : Option (Request D)) (s : RescheduleReconciliation D E)
      → Sound s
      → SoundPoll (poll_request request s)
  poll_request-Sound none s sound = take_result-Sound s.result s sound
  poll_request-Sound (some request) s sound =
      with_request-Sound request s.reschedule_tx.readiness s sound

  -- A future whose result is there does not panic.
  pub poll-Sound : (s : RescheduleReconciliation D E) → Sound s → SoundPoll (poll s)
  unfolding poll
  poll-Sound s sound = poll_request-Sound s.reschedule_request s sound

  abbrev pub more :
      (RescheduleReconciliation D E → Polled D E)
      → Poll (Result E Action) × RescheduleReconciliation D E
      → Polled D E
  more again (ready result, s) = ok (ready result, s)
  more again (pending, s) = again s

  -- Polls until it is ready, a number of times at most.
  abbrev pub polls : ℕ → RescheduleReconciliation D E → Polled D E
  polls zero s = ok (pending, s)
  polls (suc rounds) s = poll s >>= more (polls rounds)

  abbrev pub Answered : Result E Action → List (Request D) → Polled D E → Type 0
  Answered result sent answer =
      (s' : RescheduleReconciliation D E) × (answer ≡ ok (ready result, s'))
      × (s'.reschedule_tx.sent ≡ sent)

  abbrev waiting :
      Option (Request D)
      → Result E Action
      → List Readiness
      → List (Request D)
      → RescheduleReconciliation D E
  waiting request result readiness sent = record {
    reschedule_tx = record { readiness = readiness; sent = sent };
    reschedule_request = request;
    result = some result;
  }

  waiting-Answered :
      (n : ℕ) (r : Readiness) (rest : List Readiness) (request : Option (Request D))
      (result : Result E Action) (sent : List (Request D))
      → is_over r ≡ true
      → Answered result
          (sent ++ sends request r)
          (polls (suc n) (waiting request result (full_for n (r ∷ rest)) sent))
  unfolding poll
  waiting-Answered n r rest none result sent over = (_, refl, sym (append-nil sent))
  waiting-Answered zero full rest (some request) result sent over = absurd cc
  waiting-Answered zero room rest (some request) result sent over = (_, refl, refl)
  waiting-Answered zero disconnected rest (some request) result sent over =
      (_, refl, sym (append-nil sent))
  waiting-Answered (suc n) r rest (some request) result sent over =
      waiting-Answered n r rest (some request) result sent over

  -- What should be sent after a reconciliation.
  abbrev pub due_after :
      ℕ → Result E Action → (E → Action) → ObjectRef D → Readiness → List (Request D)
  due_after now (ok action) error_policy = due now action.requeue_after reconciler_requested_retry
  due_after now (err e) error_policy =
      due now (error_policy e).requeue_after error_policy_requested_retry

  sends-due_after :
      (now : ℕ) (result : Result E Action) (error_policy : E → Action) (obj_ref : ObjectRef D)
      (r : Readiness)
      → sends (request_after now result error_policy obj_ref) r
        ≡ due_after now result error_policy obj_ref r
  unfolding request_after
  sends-due_after now (ok action) error_policy obj_ref r =
      sends-due now action.requeue_after reconciler_requested_retry obj_ref r
  sends-due_after now (err e) error_policy obj_ref r =
      sends-due now (error_policy e).requeue_after error_policy_requested_retry obj_ref r

  -- However long the channel is full, once it has room or its receiver is gone, the future gives the
  -- result of the reconciliation unchanged, and has sent what is due: nothing if the receiver is gone
  -- or nothing is to be requeued, and else one request for the object, for the time of the
  -- reconciliation's end and the delay that the action, or for a failure that of the error policy,
  -- asks for, with the reason that it was the one or the other.
  pub polls-Answered :
      (n now : ℕ) (r : Readiness) (rest : List Readiness) (result : Result E Action)
      (error_policy : E → Action) (obj_ref : ObjectRef D) (sent : List (Request D))
      → is_over r ≡ true
      → Answered result (sent ++ due_after now result error_policy obj_ref r) (
          polls (suc n) (
            new now result error_policy obj_ref
              (record { readiness = full_for n (r ∷ rest); sent = sent })))
  unfolding new
  polls-Answered n now r rest result error_policy obj_ref sent over =
      rw (← sends-due_after now result error_policy obj_ref r)
        (waiting-Answered n r rest (request_after now result error_policy obj_ref) result sent over)
