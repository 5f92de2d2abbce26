-- ===== src/Scheduler/Slots.antt =====
-- The scheduler of kube-runtime/src/scheduler.rs seen from outside: what it knows of each message.
use kube.Prelude.{EqLaws, ℕ, ◌≡◌, Bool, true, false, Option, none, some, ◌==◌, leb, if◌then◌else◌}
use kube.Prelude.HashMap
use kube.Prelude.HashSet
use kube.Scheduler.Delay.{DelayQueue, DelayQueueLaws}
use kube.Scheduler.{Scheduler, ScheduledEntry}

-- A message is unknown, runs at a time, or is held until it may be taken.
pub data Slot : Type 0 where
  absent held : Slot
  at : ℕ → Slot

-- What a request does to the slot of its message: the earlier time wins, and what is held stays.
abbrev pub offer : Slot → ℕ → Slot
offer held t = held
offer (at u) t = if leb t u then at t else at u
offer absent t = at t

abbrev pub slot_of {ℓ} : {Key : Type ℓ} → Bool → Option (ScheduledEntry Key) → Slot
slot_of true entry = held
slot_of false none = absent
slot_of false (some entry) = at entry.run_at

module _ {ℓ} {T : Type ℓ} ⦃e : EqLaws T⦄ {d : DelayQueue T} where
  unfoldable pub slot : Scheduler d → T → Slot
  slot s m = slot_of (HashSet.contains s.pending m) (HashMap.get s.scheduled m)

-- The metadata and the queue agree, and no held message is scheduled.
pub record Inv {ℓ} {T : Type ℓ} ⦃e : EqLaws T⦄ {d : DelayQueue T} (laws : DelayQueueLaws d)
    (s : Scheduler d) : Type ℓ where
  pub queued :
      (m : T) (entry : ScheduledEntry d.Key)
      → HashMap.get s.scheduled m ≡ some entry
      → (m' : T) × ((m' == m) ≡ true)
        × (laws.entry s.queue entry.queue_key ≡ some (m', entry.run_at))
  pub known :
      (k : d.Key) (m : T) (t : ℕ)
      → laws.entry s.queue k ≡ some (m, t)
      → (entry : ScheduledEntry d.Key) × (HashMap.get s.scheduled m ≡ some entry)
        × (entry.run_at ≡ t)
        × (laws.key_eq.beq entry.queue_key k ≡ true)
  pub disjoint : (m : T) → HashSet.contains s.pending m ≡ true → HashMap.get s.scheduled m ≡ none
