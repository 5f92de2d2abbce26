-- ===== src/Scheduler/Timers.antt =====
-- A delay queue that meets the laws which the scheduler of kube-runtime/src/scheduler.rs relies on.
use kube.Prelude.{
  ℕ, zero, suc, ◌+◌, ◌≤◌, ◌<◌, ◌≡◌, refl, sym, ap, subst, ◌∙◌, true, Option, none, some, ltb, leb,
  nat_beq, nat_eq, if◌then◌else◌, Poll, ready, pending, arith, inl, inr, Bool-cases, Option-cases,
}
use kube.Scheduler.Delay.{DelayQueue, DelayQueueLaws}

abbrev pub Cells {ℓ} : Type ℓ → Type ℓ
Cells T = ℕ → Option (T × ℕ)

module _ {ℓ} {T : Type ℓ} where
  abbrev pub update : Cells T → ℕ → Option (T × ℕ) → Cells T
  update c k v j = if nat_beq k j then v else c j

  abbrev pub size : Option (T × ℕ) → ℕ
  size none = 0
  size (some v) = 1

  unfoldable pub count : ℕ → Cells T → ℕ
  count zero c = 0
  count (suc n) c = size (c n) + count n c

  count-update_above :
      (n k : ℕ) (c : Cells T) (v : Option (T × ℕ)) → n ≤ k → count n (update c k v) ≡ count n c
  unfolding count
  count-update_above zero k c v h = refl
  count-update_above (suc n) k c v h = ground (arith, count-update_above n k c v)

  count-update :
      (n k : ℕ) (c : Cells T) (v : Option (T × ℕ))
      → k < n
      → count n (update c k v) + size (c k) ≡ count n c + size v
  unfolding count
  count-update zero k c v h = absurd (omega arith)
  count-update (suc n) k c v h = elim (Bool-cases (nat_beq k n)) [
    | inl eq ↦
        let e : k ≡ n = ground arith in
        let above = count-update_above n k c v (omega arith) in rw (eq, above, e) (omega arith)
    | inr ne ↦ let below : k < n = ground arith in rw ne (omega (arith, count-update n k c v below))
  ]

-- Deadlines up to 2 ^ 36 are accepted.
abbrev reach : ℕ
reach = 68719476736

-- Keys are numbered, and those below `next` may hold a message.
pub record Timers {ℓ} (T : Type ℓ) : Type ℓ where
  pub next : ℕ
  pub cell : ℕ → Option (T × ℕ)

module _ {ℓ} {T : Type ℓ} where
  abbrev pub entry : Timers T → ℕ → Option (T × ℕ)
  entry q k = if ltb k q.next then q.cell k else none

  abbrev pub due : ℕ → Option (T × ℕ) → Option T
  due now none = none
  due now (some (m, t)) = if leb t now then some m else none

  -- The highest key below the bound whose message is due.
  unfoldable pub scan : ℕ → ℕ → (ℕ → Option (T × ℕ)) → Option (T × ℕ)
  scan zero now c = none
  scan (suc n) now c = elim (due now (c n)) [ some m ↦ some (m, n) | none ↦ scan n now c ]

  scan_lem :
      (n now : ℕ) (c : ℕ → Option (T × ℕ)) (m : T) (k : ℕ)
      → scan n now c ≡ some (m, k)
      → (t : ℕ) × (k < n) × (c k ≡ some (m, t)) × (t ≤ now)
  unfolding scan
  scan_lem zero now c m k h = cc
  scan_lem (suc n) now c m k h = elim (Option-cases (c n)) [
    | inl empty ↦
        let (t, lt, at, le) = scan_lem n now c m k (ground arith) in (t, omega arith, at, le)
    | inr ((m', t), at) ↦ elim (Bool-cases (leb t now)) [
      | inl le ↦ let e : n ≡ k = ground arith in (t, ground arith, ground arith, ground arith)
      | inr later ↦
          let (u, lt, at', le) = scan_lem n now c m k (ground arith) in (u, omega arith, at', le)
    ]
  ]

  abbrev pub expire : Timers T → Option (T × ℕ) → Poll (Option T) × Timers T
  expire q none = (pending, q)
  expire q (some (m, k)) = (ready (some m), record q { cell = update q.cell k none })

  abbrev pub reset_found : ℕ → ℕ → Timers T → Option (T × ℕ) → Option (Timers T)
  reset_found k t q none = none
  reset_found k t q (some (m, u)) =
      if leb t reach then some (record q { cell = update q.cell k (some (m, t)) }) else none

  abbrev pub inserted : T → ℕ → Timers T → ℕ × Timers T
  inserted m t q = (q.next, record { next = suc q.next; cell = update q.cell q.next (some (m, t)) })

abbrev pub timers {ℓ} : (T : Type ℓ) → DelayQueue T
timers T = record {
  Queue = Timers T;
  Key = ℕ;
  new = record { next = 0; cell = λ k. none };
  insert_at = λ m t q. if leb t reach then some (inserted m t q) else none;
  reset_at = λ k t q. reset_found k t q (entry q k);
  poll_expired = λ now q. expire q (scan q.next now q.cell);
  len = λ q. count q.next q.cell;
}

module _ {ℓ} {T : Type ℓ} where
  count-insert :
      (n : ℕ) (c : Cells T) (m : T) (t : ℕ)
      → count (suc n) (update c n (some (m, t))) ≡ suc (count n c)
  unfolding count
  count-insert n c m t = ground (arith, count-update_above n n c (some (m, t)), nat_eq.beq_refl n)

  reset_in_reach :
      (k t : ℕ) (q : Timers T) (m : T) (u : ℕ)
      → entry q k ≡ some (m, u)
      → t ≤ reach
      → (r : Timers T) × ((timers T).reset_at k t q ≡ some r)
  reset_in_reach k t q m u h near =
      let near' : leb t reach ≡ true = ground arith in
      (record q { cell = update q.cell k (some (m, t)) }, ap (reset_found k t q) h ∙ rw near' refl)

  reset_lem :
      (k t : ℕ) (q r : Timers T) (m : T) (u : ℕ)
      → entry q k ≡ some (m, u)
      → (timers T).reset_at k t q ≡ some r
      → ((j : ℕ) → entry r j ≡ (if nat_beq k j then some (m, t) else entry q j))
        × ((timers T).len r ≡ (timers T).len q)
  reset_lem k t q r m u h done =
      let below : k < q.next = ground arith in
      let cell : q.cell k ≡ some (m, u) = ground arith in
      let there = sym (ap (reset_found k t q) h) ∙ done in
      elim (Bool-cases (leb t reach)) [
        | inl near ↦
            let same : record q { cell = update q.cell k (some (m, t)) } ≡ r = ground arith in
            rw (← same)
              (λ j. ground arith, ground (arith, count-update q.next k q.cell (some (m, t)) below))
        | inr far ↦ absurd (ground arith)
      ]

  insert_in_reach :
      (m : T) (t : ℕ) (q : Timers T)
      → t ≤ reach
      → (k : ℕ) × (r : Timers T) × ((timers T).insert_at m t q ≡ some (k, r))
  insert_in_reach m t q near =
      let near' : leb t reach ≡ true = ground arith in
      ((inserted m t q).0, (inserted m t q).1, rw near' refl)

  insert_lem :
      (m : T) (t : ℕ) (q r : Timers T) (k : ℕ)
      → (timers T).insert_at m t q ≡ some (k, r)
      → (entry q k ≡ none)
        × ((j : ℕ) → entry r j ≡ (if nat_beq k j then some (m, t) else entry q j))
        × ((timers T).len r ≡ suc ((timers T).len q))
  insert_lem m t q r k done = elim (Bool-cases (leb t reach)) [
    | inl near ↦
        let same : inserted m t q ≡ (k, r) = ground arith in
        subst
          (λ p.
            (entry q p.0 ≡ none)
            × ((j : ℕ) → entry p.1 j ≡ (if nat_beq p.0 j then some (m, t) else entry q j))
            × ((timers T).len p.1 ≡ suc ((timers T).len q)))
          same (ground arith, λ j. ground arith, count-insert q.next q.cell m t)
    | inr far ↦ absurd (ground arith)
  ]

  some_lem :
      (now : ℕ) (q r : Timers T) (m : T)
      → (timers T).poll_expired now q ≡ (ready (some m), r)
      → (k t : ℕ) × (entry q k ≡ some (m, t))
        × (t ≤ now)
        × ((j : ℕ) → entry r j ≡ (if nat_beq k j then none else entry q j))
        × ((timers T).len q ≡ suc ((timers T).len r))
  some_lem now q r m h = elim (Option-cases (scan q.next now q.cell)) [
    | inl nothing ↦ ground arith
    | inr ((m', k), found) ↦
        let (t, below, cell, le) = scan_lem q.next now q.cell m' k found in
        (
          k,
          t,
          ground arith,
          le,
          λ j. ground arith,
          ground (arith, count-update q.next k q.cell none below),
        )
  ]

  none_lem :
      (now : ℕ) (q r : Timers T)
      → (timers T).poll_expired now q ≡ (ready none, r)
      → (j : ℕ) → entry r j ≡ entry q j
  none_lem now q r h j = ground arith

  pending_lem :
      (now : ℕ) (q r : Timers T)
      → (timers T).poll_expired now q ≡ (pending, r)
      → (j : ℕ) → entry r j ≡ entry q j
  pending_lem now q r h j = ground arith

pub timers-Laws {ℓ} : (T : Type ℓ) → DelayQueueLaws (timers T)
timers-Laws T = record {
  key_eq = nat_eq;
  entry = entry;
  entry-new = λ k. ground arith;
  entry_cong = λ q j k h. ground arith;
  reach = reach;
  insert_at_in_reach = insert_in_reach;
  insert_at_some = insert_lem;
  reset_at_in_reach = reset_in_reach;
  reset_at_some = reset_lem;
  poll_expired_some = some_lem;
  poll_expired_none = none_lem;
  poll_expired_pending = pending_lem;
}

pub reach-timers {ℓ} : (T : Type ℓ) (t : ℕ) → t ≤ 68719476736 → t ≤ (timers-Laws T).reach
unfolding timers-Laws
reach-timers T t h = h
