-- ===== src/Scheduler/Delay.antt =====
-- `tokio_util::time::DelayQueue`, which the scheduler of kube-runtime/src/scheduler.rs only calls:
-- its operations, and its documented behaviour in terms of what stands at each key. Time is a
-- number, and an argument of the call that reads the clock.
use kube.Prelude.{
  EqLaws, ℕ, suc, ◌≤◌, ◌≡◌, true, Option, none, some, if◌then◌else◌, Poll, ready, pending,
}

pub record DelayQueue {ℓ} (T : Type ℓ) : Type (ℓ + 1) where
  pub Queue : Type ℓ
  pub Key : Type 0
  pub new : Queue
  -- `none` is the panic on a deadline that is too far in the future.
  pub insert_at : T → ℕ → Queue → Option (Key × Queue)
  -- `none` is that panic, or the panic on a key that is not in the queue.
  pub reset_at : Key → ℕ → Queue → Option Queue
  pub poll_expired : ℕ → Queue → Poll (Option T) × Queue
  pub len : Queue → ℕ

-- What a key holds: a value and its deadline.
pub record DelayQueueLaws {ℓ} {T : Type ℓ} (d : DelayQueue T) : Type ℓ where
  pub key_eq : EqLaws d.Key
  pub entry : d.Queue → d.Key → Option (T × ℕ)
  pub entry-new : (k : d.Key) → entry d.new k ≡ none
  pub entry_cong : (q : d.Queue) (j k : d.Key) → key_eq.beq j k ≡ true → entry q j ≡ entry q k
  -- How far in the future a deadline may be: none up to this time is too far. A queue reaches further
  -- as time goes on, so that this is its reach when it is made.
  pub reach : ℕ
  pub insert_at_in_reach :
      (m : T) (t : ℕ) (q : d.Queue)
      → t ≤ reach
      → (k : d.Key) × (r : d.Queue) × (d.insert_at m t q ≡ some (k, r))
  -- The key of an insertion is not in use.
  pub insert_at_some :
      (m : T) (t : ℕ) (q r : d.Queue) (k : d.Key)
      → d.insert_at m t q ≡ some (k, r)
      → (entry q k ≡ none)
        × ((j : d.Key) → entry r j ≡ (if key_eq.beq k j then some (m, t) else entry q j))
        × (d.len r ≡ suc (d.len q))
  -- A key in use can be given another deadline.
  pub reset_at_in_reach :
      (k : d.Key) (t : ℕ) (q : d.Queue) (m : T) (u : ℕ)
      → entry q k ≡ some (m, u)
      → t ≤ reach
      → (r : d.Queue) × (d.reset_at k t q ≡ some r)
  pub reset_at_some :
      (k : d.Key) (t : ℕ) (q r : d.Queue) (m : T) (u : ℕ)
      → entry q k ≡ some (m, u)
      → d.reset_at k t q ≡ some r
      → ((j : d.Key) → entry r j ≡ (if key_eq.beq k j then some (m, t) else entry q j))
        × (d.len r ≡ d.len q)
  -- What is handed out was due, and leaves the queue.
  pub poll_expired_some :
      (now : ℕ) (q r : d.Queue) (m : T)
      → d.poll_expired now q ≡ (ready (some m), r)
      → (k : d.Key) × (t : ℕ) × (entry q k ≡ some (m, t))
        × (t ≤ now)
        × ((j : d.Key) → entry r j ≡ (if key_eq.beq k j then none else entry q j))
        × (d.len q ≡ suc (d.len r))
  -- Otherwise the queue holds what it held.
  pub poll_expired_none :
      (now : ℕ) (q r : d.Queue)
      → d.poll_expired now q ≡ (ready none, r)
      → (j : d.Key) → entry r j ≡ entry q j
  pub poll_expired_pending :
      (now : ℕ) (q r : d.Queue)
      → d.poll_expired now q ≡ (pending, r)
      → (j : d.Key) → entry r j ≡ entry q j
