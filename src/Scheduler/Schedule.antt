-- ===== src/Scheduler/Schedule.antt =====
-- `schedule_message` of kube-runtime/src/scheduler.rs keeps the metadata and the queue together.
use kube.Prelude.{
  EqLaws, ℕ, ◌≡◌, ◌≤◌, refl, subst, true, false, none, some, ◌==◌, eq_refl, eq_sym, eq_cong,
  eq_trans, leb, if◌then◌else◌, ok, arith, inl, inr, Bool-cases, Option-cases,
}
use kube.Prelude.HashMap
use kube.Prelude.HashMap.{get-insert, get_cong}
use kube.Prelude.HashSet
use kube.Prelude.HashSet.{contains_cong}
use kube.Scheduler.Delay.{DelayQueue, DelayQueueLaws}
use kube.Scheduler.{Scheduler, ScheduledEntry, ScheduleRequest, schedule_message, schedule_new}
use kube.Scheduler.{reschedule}
use kube.Scheduler.Slots.{Inv, slot, offer, at}

module _ {ℓ} {T : Type ℓ} ⦃e : EqLaws T⦄ {d : DelayQueue T} (laws : DelayQueueLaws d) where
  -- What a request has to leave behind.
  pub record Scheduled (s : Scheduler d) (r : ScheduleRequest T) (s' : Scheduler d) : Type ℓ where
    pub kept : Inv laws s'
    pub slots :
        (m : T) → slot s' m ≡ (if r.message == m then offer (slot s m) r.run_at else slot s m)

  -- One message is put at one key, which no other message has.
  placed-Inv :
      (s : Scheduler d) (queue : d.Queue) (m m' : T) (k : d.Key) (t : ℕ)
      → Inv laws s
      → (m' == m) ≡ true
      → HashSet.contains s.pending m ≡ false
      → ((j : d.Key)
          → laws.entry queue j
            ≡ (if laws.key_eq.beq k j then some (m', t) else laws.entry s.queue j))
      → ((x : T) (entry : ScheduledEntry d.Key)
          → HashMap.get s.scheduled x ≡ some entry
          → (m == x) ≡ false
          → laws.key_eq.beq k entry.queue_key ≡ false)
      → ((j : d.Key) (x : T) (u : ℕ)
          → laws.entry s.queue j ≡ some (x, u)
          → laws.key_eq.beq k j ≡ false
          → (m == x) ≡ false)
      → Inv laws (record s {
        queue = queue;
        scheduled = HashMap.insert m (record { run_at = t; queue_key = k }) s.scheduled;
      })
  placed-Inv s queue m m' k t v same free put others keys = record {
    queued = λ x entry h. elim (Bool-cases (m == x)) [
      | inl eq ↦ (
        m',
        eq_trans m' m x same eq,
        ground (
          arith,
          get-insert m x placed s.scheduled,
          put k,
          laws.key_eq.beq_refl k,
          put entry.queue_key,
        ),
      )
      | inr ne ↦
          let old : HashMap.get s.scheduled x ≡ some entry =
            ground (arith, get-insert m x placed s.scheduled) in
          let (y, eq, at_key) = v.queued x entry old in
          (y, eq, ground (arith, put entry.queue_key, others x entry old ne))
    ];
    known = λ j x u h. elim (Bool-cases (laws.key_eq.beq k j)) [
      | inl eq ↦ (
        placed,
        ground (arith, put j, get-insert m x placed s.scheduled, eq_sym m' m),
        ground (arith, put j),
        eq,
      )
      | inr ne ↦
          let old : laws.entry s.queue j ≡ some (x, u) = ground (arith, put j) in
          let (entry, found, time, key) = v.known j x u old in
          (entry, ground (arith, get-insert m x placed s.scheduled, keys j x u old ne), time, key)
    ];
    disjoint = λ x h.
        ground
          (arith, v.disjoint x, contains_cong m x s.pending, get-insert m x placed s.scheduled);
  }
    where
      placed : ScheduledEntry d.Key
      placed = record { run_at = t; queue_key = k }

  -- The metadata of a message that was put at a key.
  abbrev put_at : Scheduler d → d.Queue → d.Key → ScheduleRequest T → Scheduler d
  put_at s q k r = record s {
    queue = q;
    scheduled = HashMap.insert r.message (record { run_at = r.run_at; queue_key = k }) s.scheduled;
  }

  put_at-Inv :
      (s : Scheduler d) (r : ScheduleRequest T) (q : d.Queue) (key : d.Key)
      → Inv laws s
      → HashSet.contains s.pending r.message ≡ false
      → HashMap.get s.scheduled r.message ≡ none
      → d.insert_at r.message r.run_at s.queue ≡ some (key, q)
      → Inv laws (put_at s q key r)
  put_at-Inv s r q key v free new done =
      let (fresh, put, _) = laws.insert_at_some r.message r.run_at s.queue q key done in
      placed-Inv s q r.message r.message key r.run_at v (eq_refl r.message) free put
        (λ x entry h _.
          let (y, _, at_key) = v.queued x entry h in
          ground (arith, laws.entry_cong s.queue key entry.queue_key, fresh))
        (λ j x u h _.
          let (entry, found, _, _) = v.known j x u h in
          ground (arith, get_cong r.message x s.scheduled))

  -- A reset of the old entry of the message is as good as a new one.
  reset_at-Inv :
      (s : Scheduler d) (r : ScheduleRequest T) (old : ScheduledEntry d.Key) (q : d.Queue)
      → Inv laws s
      → HashSet.contains s.pending r.message ≡ false
      → HashMap.get s.scheduled r.message ≡ some old
      → d.reset_at old.queue_key r.run_at s.queue ≡ some q
      → Inv laws (put_at s q old.queue_key r)
  reset_at-Inv s r old q v free found done =
      let (m', same, at_key) = v.queued r.message old found in
      let (put, _) =
        laws.reset_at_some old.queue_key r.run_at s.queue q m' old.run_at at_key done in
      placed-Inv s q r.message m' old.queue_key r.run_at v same free put
        (λ x entry h ne.
          let (y, eq, at_entry) = v.queued x entry h in
          ground (
            arith,
            laws.entry_cong s.queue old.queue_key entry.queue_key,
            eq_cong m' r.message x,
            eq_cong m' x r.message,
            eq_sym x r.message,
            eq_sym y x,
            eq_cong y x r.message,
            eq_cong m' y r.message,
          ))
        (λ j x u h ne.
          let (entry, known, _, key) = v.known j x u h in
          ground (arith, get_cong r.message x s.scheduled, laws.key_eq.beq_sym j old.queue_key))

  slot_placed :
      (s : Scheduler d) (q : d.Queue) (m x : T) (entry : ScheduledEntry d.Key)
      → HashSet.contains s.pending m ≡ false
      → slot (record s { queue = q; scheduled = HashMap.insert m entry s.scheduled }) x
        ≡ (if m == x then at entry.run_at else slot s x)
  unfolding slot
  slot_placed s q m x entry free =
      ground (arith, get-insert m x entry s.scheduled, contains_cong m x s.pending)

  slot_cong : (s : Scheduler d) (m x : T) → (m == x) ≡ true → slot s m ≡ slot s x
  unfolding slot
  slot_cong s m x eq = ground (arith, contains_cong m x s.pending, get_cong m x s.scheduled)

  -- A request that leaves the slot of its message as it is leaves all as they are.
  slots_kept :
      (s : Scheduler d) (m x : T) (t : ℕ)
      → offer (slot s m) t ≡ slot s m
      → slot s x ≡ (if m == x then offer (slot s x) t else slot s x)
  slots_kept s m x t h = ground (arith, slot_cong s m x)

  -- A request whose message is placed at its time.
  slots_placed :
      (s : Scheduler d) (q : d.Queue) (m x : T) (entry : ScheduledEntry d.Key)
      → HashSet.contains s.pending m ≡ false
      → offer (slot s m) entry.run_at ≡ at entry.run_at
      → slot (record s { queue = q; scheduled = HashMap.insert m entry s.scheduled }) x
        ≡ (if m == x then offer (slot s x) entry.run_at else slot s x)
  slots_placed s q m x entry free h =
      ground (arith, slot_cong s m x, slot_placed s q m x entry free)

  kept-Scheduled :
      (s : Scheduler d) (r : ScheduleRequest T)
      → Inv laws s
      → offer (slot s r.message) r.run_at ≡ slot s r.message
      → Scheduled s r s
  kept-Scheduled s r v h = record { kept = v; slots = λ x. slots_kept s r.message x r.run_at h }

  put_at-Scheduled :
      (s : Scheduler d) (r : ScheduleRequest T) (q : d.Queue) (key : d.Key)
      → Inv laws (put_at s q key r)
      → HashSet.contains s.pending r.message ≡ false
      → offer (slot s r.message) r.run_at ≡ at r.run_at
      → Scheduled s r (put_at s q key r)
  put_at-Scheduled s r q key kept free h = record {
    kept = kept;
    slots = λ x. slots_placed s q r.message x _ free h;
  }

  -- A request that is accepted leaves metadata and queue in agreement.
  pub schedule_message-kept :
      (s s' : Scheduler d) (r : ScheduleRequest T)
      → Inv laws s
      → schedule_message d s r ≡ ok s'
      → Scheduled s r s'
  unfolding schedule_message schedule_new reschedule
  schedule_message-kept s s' r v done = elim (Bool-cases (HashSet.contains s.pending r.message)) [
    | inl waiting ↦
        let same : s ≡ s' = ground arith in
        subst (Scheduled s r) same (kept-Scheduled s r v (unfold slot in rw waiting))
    | inr free ↦ elim (Option-cases (HashMap.get s.scheduled r.message)) [
      | inl new ↦ elim (Option-cases (d.insert_at r.message r.run_at s.queue)) [
        | inl refused ↦ absurd (ground arith)
        | inr ((key, q), inserted) ↦
            let same : put_at s q key r ≡ s' = ground arith in
            subst (Scheduled s r) same (
              put_at-Scheduled s r q key (put_at-Inv s r q key v free new inserted) free
                (unfold slot in rw (free, new)))
      ]
      | inr (old, found) ↦ elim (Bool-cases (leb r.run_at old.run_at)) [
        | inl earlier ↦ elim (Option-cases (d.reset_at old.queue_key r.run_at s.queue)) [
          | inl refused ↦ absurd (ground arith)
          | inr (q, reset) ↦
              let same : put_at s q old.queue_key r ≡ s' = ground arith in
              subst (Scheduled s r) same (
                put_at-Scheduled s r q old.queue_key (reset_at-Inv s r old q v free found reset)
                  free (unfold slot in rw (free, found, earlier)))
        ]
        | inr later ↦
            let same : s ≡ s' = ground arith in
            subst (Scheduled s r) same
              (kept-Scheduled s r v (unfold slot in rw (free, found, later)))
      ]
    ]
  ]

  -- A request within reach of the queue is accepted.
  schedule_message-accepts :
      (s : Scheduler d) (r : ScheduleRequest T)
      → Inv laws s
      → r.run_at ≤ laws.reach
      → (s' : Scheduler d) × (schedule_message d s r ≡ ok s')
  unfolding schedule_message schedule_new reschedule
  schedule_message-accepts s r v near = elim (Bool-cases (HashSet.contains s.pending r.message)) [
    | inl waiting ↦ (s, rw waiting refl)
    | inr free ↦ elim (Option-cases (HashMap.get s.scheduled r.message)) [
      | inl new ↦
          let (key, q, inserted) = laws.insert_at_in_reach r.message r.run_at s.queue near in
          (put_at s q key r, ground arith)
      | inr (old, found) ↦ elim (Bool-cases (leb r.run_at old.run_at)) [
        | inl earlier ↦
            let (m', _, at_key) = v.queued r.message old found in
            let (q, reset) =
              laws.reset_at_in_reach old.queue_key r.run_at s.queue m' old.run_at at_key near in
            (put_at s q old.queue_key r, ground arith)
        | inr later ↦ (s, ground arith)
      ]
    ]
  ]

  -- Over a delay queue that keeps its laws, on a scheduler whose metadata and queue agree, a request
  -- for a time within the reach of the queue is accepted without a panic. Metadata and queue agree
  -- afterwards, the slot of its message is the old one with the offer taken, and every other message
  -- keeps its slot.
  pub schedule_message-Scheduled :
      (s : Scheduler d) (r : ScheduleRequest T)
      → Inv laws s
      → r.run_at ≤ laws.reach
      → (s' : Scheduler d) × (schedule_message d s r ≡ ok s') × Scheduled s r s'
  schedule_message-Scheduled s r v near =
      let (s', done) = schedule_message-accepts s r v near in
      (s', done, schedule_message-kept s s' r v done)
