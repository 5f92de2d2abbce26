-- ===== src/Runner/Keeping.antt =====
-- kube-runtime/src/controller/runner.rs and future_hash_map.rs: what holds of the futures when they are
-- started and polled holds of all that run.
use kube.Prelude.{
  EqLaws, ◌==◌, eq_refl, ◌≡◌, false, Option, none, some, List, [], ◌∷◌, All, length, nat_beq, Poll,
  ready, pending, arith, inl, inr, Bool-cases,
}
use kube.Prelude.HashMap
use kube.Prelude.HashMap.{HashMap, put, without}
use kube.Runner.FutureHashMap
use kube.Runner.FutureHashMap.{poll_entries, report}
use kube.Runner.Exclusion.{Starts}

module _ {ℓ} {T F : Type ℓ} ⦃e : EqLaws T⦄ (P : F → Type ℓ) where
  -- The predicate holds of every future of a map.
  abbrev pub Running : HashMap T F → Type ℓ
  Running m = All (λ (x : T × F). P x.1) m.entries

  put-All :
      (k : T) (f : F) (l : List (T × F))
      → P f
      → All (λ (x : T × F). P x.1) l
      → All (λ (x : T × F). P x.1) (put k f l)
  unfolding put
  put-All k f [] p all = (p, tt)
  put-All k f ((j, g) ∷ l) p (q, all) = elim (Bool-cases (j == k)) [
    | inl h ↦ rw h (p, all)
    | inr h ↦ rw h (q, put-All k f l p all)
  ]

  -- Once a key is taken out, the predicate need not have held there.
  without-All :
      (k : T) (l : List (T × F))
      → All (λ (x : T × F). (x.0 == k) ≡ false → P x.1) l
      → All (λ (x : T × F). P x.1) (without k l)
  unfolding without
  without-All k [] all = tt
  without-All k ((j, f) ∷ l) (p, all) = elim (Bool-cases (j == k)) [
    | inl h ↦ rw h (without-All k l all)
    | inr h ↦ rw h (p h, without-All k l all)
  ]

  weaken-All :
      (k : T) (l : List (T × F))
      → All (λ (x : T × F). P x.1) l
      → All (λ (x : T × F). (x.0 == k) ≡ false → P x.1) l
  weaken-All k [] all = tt
  weaken-All k (x ∷ l) (p, all) = ((λ h. p), weaken-All k l all)

  module _ {W : Type ℓ} (run_msg : T → W → F × W)
      (starts : (msg : T) (w : W) → P (run_msg msg w).0) where
    pub Starts-Running :
        (msgs : List T) (slots slots' : HashMap T F) (w w' : W)
        → Starts run_msg msgs slots w slots' w'
        → Running slots
        → Running slots'
    unfolding FutureHashMap.insert HashMap.insert
    Starts-Running [] slots slots' w w' (same, _) all = rw same all
    Starts-Running (msg ∷ msgs) slots slots' w w' (_, s) all =
        Starts-Running msgs _ slots' _ w' s
          (put-All msg (run_msg msg w).0 slots.entries (starts msg w) all)

-- A poll keeps the predicate, or gives a good value.
abbrev pub Good {ℓ} : {F O : Type ℓ} → (F → Type ℓ) → (O → Type ℓ) → Poll O × F → Type ℓ
Good P R (ready o, f) = R o
Good P R (pending, f) = P f

module _ {ℓ} {T F O : Type ℓ} ⦃e : EqLaws T⦄ (P : F → Type ℓ) (R : O → Type ℓ) where
  abbrev GoodEntries : Option (T × O) × List (T × F) → Type ℓ
  GoodEntries (none, l) = All (λ (x : T × F). P x.1) l
  GoodEntries (some (k, o), l) = R o × All (λ (x : T × F). (x.0 == k) ≡ false → P x.1) l

  abbrev pub GoodPoll : Poll (Option O) × HashMap T F → Type ℓ
  GoodPoll (ready (some o), m) = R o × Running P m
  GoodPoll (ready none, m) = Running P m
  GoodPoll (pending, m) = Running P m

  pending-Good :
      (k : T) (f : F) (r : Option (T × O) × List (T × F))
      → P f
      → GoodEntries r
      → GoodEntries (r.0, (k, f) ∷ r.1)
  pending-Good k f (none, l) p all = (p, all)
  pending-Good k f (some (j, o), l) p (good, all) = (good, ((λ h. p), all))

  entry-Good :
      (k : T) (a : Poll O) (f : F) (l : List (T × F)) (r : Option (T × O) × List (T × F))
      → Good P R (a, f)
      → All (λ (x : T × F). P x.1) l
      → GoodEntries r
      → GoodEntries
          (elim a [ ready msg ↦ (some (k, msg), (k, f) ∷ l) | pending ↦ (r.0, (k, f) ∷ r.1) ])
  entry-Good k (ready o) f l r good all rest =
      (good, ((λ h. absurd (ground (arith, eq_refl k))), weaken-All P k l all))
  entry-Good k pending f l r good all rest = pending-Good k f r good rest

  module _ (poll : F → Poll O × F) (good : (f : F) → P f → Good P R (poll f)) where
    reported-Good :
        (r : Option (T × O) × List (T × F))
        → GoodEntries r
        → GoodPoll (report poll r.0 (record { entries = r.1 }))
    unfolding report HashMap.remove HashMap.len
    reported-Good (none, l) all = elim (Bool-cases (nat_beq (length l) 0)) [
      | inl h ↦ rw h all
      | inr h ↦ rw h all
    ]
    reported-Good (some (k, o), l) (good, all) = (good, without-All P k l all)

    poll_entries-Good :
        (l : List (T × F)) → All (λ (x : T × F). P x.1) l → GoodEntries (poll_entries poll l)
    unfolding poll_entries
    poll_entries-Good [] all = tt
    poll_entries-Good ((k, f) ∷ l) (p, all) =
        entry-Good k (poll f).0 (poll f).1 l (poll_entries poll l) (good f p) all
          (poll_entries-Good l all)

    pub poll_next-Good : (m : HashMap T F) → Running P m → GoodPoll (FutureHashMap.poll_next poll m)
    unfolding FutureHashMap.poll_next
    poll_next-Good m all =
        reported-Good (poll_entries poll m.entries) (poll_entries-Good m.entries all)
