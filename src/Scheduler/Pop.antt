-- ===== src/Scheduler/Pop.antt =====
-- `poll_pop_queue_message` of kube-runtime/src/scheduler.rs: one expired message, or none.
use kube.Prelude.{
  EqLaws, ℕ, ◌≤◌, ◌≡◌, Bool, true, false, none, some, ◌==◌, ◌∙◌, if◌then◌else◌, Poll, ready,
  pending, arith, inl, inr, ◌⊎◌,
}
use kube.Prelude.HashMap
use kube.Prelude.HashMap.{get-remove, get_cong}
use kube.Prelude.HashSet
use kube.Prelude.HashSet.{contains_cong, contains-insert}
use kube.Scheduler.Delay.{DelayQueue, DelayQueueLaws}
use kube.Scheduler.{Scheduler}
use kube.Scheduler.Slots.{Slot, Inv, slot, at, absent, held}

-- A poll leaves a slot alone, or holds a message that is due and may not be taken.
abbrev pub Passed : ℕ → Bool → Slot → Slot → Type 0
Passed now may o o' = (o' ≡ o) ⊎ ((t : ℕ) × (o ≡ at t) × (t ≤ now) × (o' ≡ held) × (may ≡ false))

abbrev pub Due : ℕ → Slot → Type 0
Due now o = (o ≡ held) ⊎ ((t : ℕ) × (o ≡ at t) × (t ≤ now))

pub Passed-trans :
    (now : ℕ) (may : Bool) (o o' o'' : Slot)
    → Passed now may o o'
    → Passed now may o' o''
    → Passed now may o o''
Passed-trans now may o o' o'' (inl p) (inl q) = inl (q ∙ p)
Passed-trans now may o o' o'' (inl p) (inr (t, e, le, h, c)) = inr (t, ground arith, le, h, c)
Passed-trans now may o o' o'' (inr (t, e, le, h, c)) (inl q) = inr (t, e, le, q ∙ h, c)
Passed-trans now may o o' o'' (inr (t, e, le, h, c)) (inr (u, e', _, _, _)) = cc

pub Passed-Due : (now : ℕ) (may : Bool) (o o' : Slot) → Passed now may o o' → Due now o' → Due now o
Passed-Due now may o o' (inl p) (inl q) = inl (ground arith)
Passed-Due now may o o' (inl p) (inr (t, e, le)) = inr (t, ground arith, le)
Passed-Due now may o o' (inr (t, e, le, _, _)) due = inr (t, e, le)

module _ {ℓ} {T : Type ℓ} ⦃e : EqLaws T⦄ {d : DelayQueue T} (laws : DelayQueueLaws d) where
  -- What a poll at `now` may answer, and what it may change.
  abbrev pub Answered : ℕ → (T → Bool) → Scheduler d → Poll T → Scheduler d → Type ℓ
  Answered now can_take s pending s' = (x : T) → Passed now (can_take x) (slot s x) (slot s' x)
  Answered now can_take s (ready msg) s' =
      (can_take msg ≡ true)
      × Due now (slot s msg)
      × (slot s' msg ≡ absent)
      × ((x : T) → (msg == x) ≡ false → Passed now (can_take x) (slot s x) (slot s' x))

  module _ (s : Scheduler d) (v : Inv laws s) (queue : d.Queue) (msg : T) (k : d.Key) (t : ℕ)
      (at_key : laws.entry s.queue k ≡ some (msg, t))
      (left : (j : d.Key)
        → laws.entry queue j ≡ (if laws.key_eq.beq k j then none else laws.entry s.queue j)) where
    abbrev pub popped : Scheduler d
    popped = record s { queue = queue; scheduled = HashMap.remove msg s.scheduled }

    abbrev pub set_aside : Scheduler d
    set_aside = record popped { pending = HashSet.insert msg s.pending }

    pub popped-Inv : Inv laws popped
    popped-Inv = record {
      queued = λ x entry h.
          let old : HashMap.get s.scheduled x ≡ some entry =
            ground (arith, get-remove msg x s.scheduled) in
          let (y, eq, at_entry) = v.queued x entry old in
          (
            y,
            eq,
            ground (
              arith,
              left entry.queue_key,
              laws.entry_cong s.queue k entry.queue_key,
              get-remove msg x s.scheduled,
            ),
          );
      known = λ j x u h.
          let old : laws.entry s.queue j ≡ some (x, u) = ground (arith, left j) in
          let (entry, found, time, key) = v.known j x u old in
          let (entry', found', _, key') = v.known k msg t at_key in
          (
            entry,
            ground (
              arith,
              get-remove msg x s.scheduled,
              get_cong msg x s.scheduled,
              left j,
              laws.key_eq.beq_cong entry.queue_key k j,
            ),
            time,
            key,
          );
      disjoint = λ x h. ground (arith, get-remove msg x s.scheduled, v.disjoint x);
    }

    pub slot-popped : (x : T) → slot popped x ≡ (if msg == x then absent else slot s x)
    unfolding slot
    slot-popped x =
        let (entry, found, _, _) = v.known k msg t at_key in
        ground (arith, get-remove msg x s.scheduled, v.disjoint msg, contains_cong msg x s.pending)

    pub set_aside-Inv : Inv laws set_aside
    set_aside-Inv = record {
      queued = popped-Inv.queued;
      known = popped-Inv.known;
      disjoint = λ x h.
          ground
            (arith, contains-insert msg x s.pending, get-remove msg x s.scheduled, v.disjoint x);
    }

    pub slot-set_aside : (x : T) → slot set_aside x ≡ (if msg == x then held else slot s x)
    unfolding slot
    slot-set_aside x = ground (arith, contains-insert msg x s.pending, get-remove msg x s.scheduled)

    pub slot-msg : (x : T) → (msg == x) ≡ true → slot s x ≡ at t
    unfolding slot
    slot-msg x eq =
        let (entry, found, time, _) = v.known k msg t at_key in
        ground (arith, get_cong msg x s.scheduled, v.disjoint msg, contains_cong msg x s.pending)
