-- ===== src/Runner/Exclusion.antt =====
-- kube-runtime/src/controller/runner.rs: a poll ends, and never starts a message while an equal one
-- is running.
use kube.Prelude.{
  EqLaws, ℕ, zero, suc, ◌<◌, ◌≡◌, refl, Bool, true, false, Option, none, some, List, [], ◌∷◌, ◌==◌,
  is_some, Result, ok, Poll, ready, pending, arith,
}
use kube.Prelude.HashMap
use kube.Prelude.HashMap.{HashMap, get_cong}
use kube.Scheduler.Delay.{DelayQueue, DelayQueueLaws}
use kube.Scheduler.{Scheduler, hold_unless}
use kube.Scheduler.Backlog.{backlog, backlog-hold_unless}
use kube.Scheduler.Taking.{Fit}
use kube.Scheduler.Holding.{hold_unless-Delivered, Delivered}
use kube.Runner.{Runner, Error, RunnerFault, can_run, Polled, finish, start_messages}
use kube.Runner.FutureHashMap

module _ {ℓ} {T F : Type ℓ} ⦃e : EqLaws T⦄ where
  pub contains_key_cong :
      (m : HashMap T F) (a b : T)
      → (a == b) ≡ true
      → FutureHashMap.contains_key m a ≡ FutureHashMap.contains_key m b
  unfolding FutureHashMap.contains_key HashMap.contains_key
  contains_key_cong m a b h = ground (arith, get_cong a b m)

  pub can_run_cong :
      (is_ready : Bool) (slots : HashMap T F) (a b : T)
      → (a == b) ≡ true
      → can_run is_ready slots a ≡ can_run is_ready slots b
  can_run_cong is_ready slots a b h = ground (arith, contains_key_cong slots a b)

  pub insert_vacant :
      (m : HashMap T F) (key : T) (future : F)
      → FutureHashMap.contains_key m key ≡ false
      → is_some (FutureHashMap.insert key future m).0 ≡ false
  unfolding FutureHashMap.contains_key FutureHashMap.insert HashMap.contains_key
  insert_vacant m key future h = h

module _ {ℓ} {T F W : Type ℓ} ⦃e : EqLaws T⦄ (run_msg : T → W → F × W) where
  -- From slots and closure state to slots and closure state by starting messages one after the
  -- other, none of them equal to a message that is running.
  abbrev pub Starts : List T → HashMap T F → W → HashMap T F → W → Type ℓ
  Starts [] slots w slots' w' = (slots' ≡ slots) × (w' ≡ w)
  Starts (msg ∷ msgs) slots w slots' w' =
      (FutureHashMap.contains_key slots msg ≡ false)
      × Starts msgs (FutureHashMap.insert msg (run_msg msg w).0 slots).1 (run_msg msg w).1 slots' w'

module _ {ℓ} {T : Type ℓ} ⦃e : EqLaws T⦄ {d : DelayQueue T} (laws : DelayQueueLaws d)
    {F W E : Type ℓ} (run_msg : T → W → F × W) where
  -- What the loop does to a runner.
  pub record Loop (r r' : Runner d F W E) : Type ℓ where
    pub kept : Fit laws r'.scheduler
    pub msgs : List T
    pub started : Starts run_msg msgs r.slots r.run_state r'.slots r'.run_state
    pub gated : r.is_ready_to_execute ≡ false → msgs ≡ []
    pub same_ready : r'.is_ready_to_execute ≡ r.is_ready_to_execute
    pub same_stopped : r'.stopped ≡ r.stopped

  idle-Loop :
      (r : Runner d F W E) (s : Scheduler d) → Fit laws s → Loop r (record r { scheduler = s })
  idle-Loop r s kept = record {
    kept = kept;
    msgs = [];
    started = (refl, refl);
    gated = λ h. refl;
    same_ready = refl;
    same_stopped = refl;
  }

  module _ {O : Type ℓ} where
    abbrev pub Ends : Runner d F W E → Result RunnerFault (Polled d F W E O) → Type ℓ
    Ends r answer =
        (a : Poll (Option (Result (Error E) O))) × (r' : Runner d F W E) × (answer ≡ ok (a, r'))
        × Loop r r'

    start_one :
        (rounds : ℕ) (clock : ℕ → ℕ) (active : Bool) (r : Runner d F W E)
        → Fit laws r.scheduler
        → backlog r.scheduler < suc rounds
        → ((r' : Runner d F W E)
            → Fit laws r'.scheduler
            → backlog r'.scheduler < rounds
            → Ends r' (start_messages d run_msg rounds clock active r'))
        → (answer : Poll (Option T)) (s' : Scheduler d)
        → hold_unless d (clock rounds) (can_run r.is_ready_to_execute r.slots) r.scheduler
          ≡ ok (answer, s')
        → Fit laws s'
        → Delivered laws
            (clock rounds)
            (can_run r.is_ready_to_execute r.slots)
            (can_run_cong r.is_ready_to_execute r.slots)
            r.scheduler
            answer
            s'
        → Ends r (start_messages d run_msg (suc rounds) clock active r)
    unfolding start_messages
    start_one rounds clock active r v enough again pending s' done kept delivered =
        (pending, record r { scheduler = s' }, rw done, idle-Loop r s' kept)
    start_one rounds clock active r v enough again (ready none) s' done kept delivered =
        (finish active, record r { scheduler = s' }, rw done, idle-Loop r s' kept)
    start_one rounds clock active r v enough again (ready (some msg)) s' done kept delivered =
        let may : can_run r.is_ready_to_execute r.slots msg ≡ true = delivered.1 in
        let vacant : FutureHashMap.contains_key r.slots msg ≡ false = ground arith in
        let started = FutureHashMap.insert msg (run_msg msg r.run_state).0 r.slots in
        let next : Runner d F W E = record r {
          scheduler = s';
          run_state = (run_msg msg r.run_state).1;
          slots = started.1;
        } in
        let less =
          backlog-hold_unless laws (clock rounds) (can_run r.is_ready_to_execute r.slots)
            r.scheduler s' msg v.agree done in
        let (a, r', ended, loop) = again next kept (omega arith) in
        (
          a,
          r',
          rw (done, insert_vacant r.slots msg (run_msg msg r.run_state).0 vacant) ended,
          record {
            kept = loop.kept;
            msgs = msg ∷ loop.msgs;
            started = (vacant, loop.started);
            gated = λ h. ground arith;
            same_ready = loop.same_ready;
            same_stopped = loop.same_stopped;
          },
        )

    pub start_messages-Ends :
        (rounds : ℕ) (clock : ℕ → ℕ) (active : Bool) (r : Runner d F W E)
        → Fit laws r.scheduler
        → backlog r.scheduler < rounds
        → Ends r (start_messages d run_msg rounds clock active r)
    start_messages-Ends zero clock active r v enough = absurd (omega arith)
    start_messages-Ends (suc rounds) clock active r v enough =
        let (answer, s', done, kept, delivered) =
          hold_unless-Delivered laws (clock rounds) (can_run r.is_ready_to_execute r.slots)
            (can_run_cong r.is_ready_to_execute r.slots) r.scheduler v in
        start_one rounds clock active r v enough (start_messages-Ends rounds clock active) answer s'
          done kept delivered
