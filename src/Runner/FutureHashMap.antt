-- ===== src/Runner/FutureHashMap.antt =====
-- kube-runtime/src/controller/future_hash_map.rs: futures by key, polled together. A future is a
-- value with a poll, which answers and leaves the future that is polled next. The order of the
-- entries stands for the arbitrary order of the hash map.
use kube.Prelude.{
  EqLaws, ◌≡◌, refl, sym, ◌∙◌, inl, inr, Bool-cases, is_some, length, Bool, true, false, Option,
  none, some, List, [], ◌∷◌, ◌==◌, eq_refl, if◌then◌else◌, nat_beq, Poll, ready, pending, arith,
}
use kube.Prelude.HashMap
use kube.Prelude.HashMap.{HashMap, lookup, without, get-remove}

module _ {ℓ} {K F : Type ℓ} ⦃e : EqLaws K⦄ where
  -- The map, and the future that was at the key.
  unfoldable pub insert : K → F → HashMap K F → Option F × HashMap K F
  insert key future m = (HashMap.get m key, HashMap.insert key future m)

  unfoldable pub contains_key : HashMap K F → K → Bool
  contains_key m key = HashMap.contains_key m key

module _ {ℓ} {K F O : Type ℓ} ⦃e : EqLaws K⦄ (poll : F → Poll O × F) where
  -- Polls in order until one future is ready.
  unfoldable pub poll_entries : List (K × F) → Option (K × O) × List (K × F)
  poll_entries [] = (none, [])
  poll_entries ((key, future) ∷ rest) =
      let (answer, future') = poll future in
      let (found, rest') = poll_entries rest in
      elim answer [
        | ready msg ↦ (some (key, msg), (key, future') ∷ rest)
        | pending ↦ (found, (key, future') ∷ rest')
      ]

  unfoldable pub report : Option (K × O) → HashMap K F → Poll (Option O) × HashMap K F
  report (some (key, msg)) futures = (ready (some msg), HashMap.remove key futures)
  report none futures =
      if nat_beq (HashMap.len futures) 0 then (ready none, futures) else (pending, futures)

  unfoldable pub poll_next : HashMap K F → Poll (Option O) × HashMap K F
  unfolding poll_entries report
  poll_next m =
      let (key_and_msg, polled) = poll_entries m.entries in
      report key_and_msg (record { entries = polled })

  poll_entries-keys :
      (l : List (K × F)) (k : K) → is_some (lookup k (poll_entries l).1) ≡ is_some (lookup k l)
  unfolding poll_entries lookup
  poll_entries-keys [] k = refl
  poll_entries-keys ((key, future) ∷ rest) k = ground (arith, poll_entries-keys rest k)

  poll_entries-found :
      (l : List (K × F)) (key : K) (msg : O)
      → (poll_entries l).0 ≡ some (key, msg)
      → is_some (lookup key l) ≡ true
  unfolding poll_entries lookup
  poll_entries-found [] key msg h = ground arith
  poll_entries-found ((j, future) ∷ rest) key msg h =
      ground (arith, eq_refl key, poll_entries-found rest key msg)

  abbrev pub Finished : HashMap K F → Poll (Option O) → HashMap K F → Type ℓ
  Finished m (ready (some msg)) m' =
      (key : K) × (HashMap.contains_key m key ≡ true)
      × ((k : K)
          → HashMap.contains_key m' k ≡ (if key == k then false else HashMap.contains_key m k))
  Finished m (ready none) m' =
      (k : K) → (HashMap.contains_key m k ≡ false) × (HashMap.contains_key m' k ≡ false)
  Finished m pending m' = (k : K) → HashMap.contains_key m' k ≡ HashMap.contains_key m k

  empty_len : (l : List (K × F)) (k : K) → length l ≡ 0 → is_some (lookup k l) ≡ false
  unfolding lookup
  empty_len [] k h = refl
  empty_len (x ∷ l) k h = absurd (omega arith)

  contains_key-empty :
      (m : HashMap K F) (k : K)
      → nat_beq (HashMap.len m) 0 ≡ true
      → HashMap.contains_key m k ≡ false
  unfolding HashMap.contains_key HashMap.get HashMap.len
  contains_key-empty m k h = empty_len m.entries k (ground arith)

  report-Finished :
      (m m' : HashMap K F) (found : Option (K × O))
      → ((k : K) → HashMap.contains_key m' k ≡ HashMap.contains_key m k)
      → ((key : K) (msg : O) → found ≡ some (key, msg) → HashMap.contains_key m key ≡ true)
      → Finished m (report found m').0 (report found m').1
  unfolding report HashMap.contains_key
  report-Finished m m' (some (key, msg)) same there =
      (key, there key msg refl, λ k. ground (arith, get-remove key k m', same k))
  report-Finished m m' none same there = elim (Bool-cases (nat_beq (HashMap.len m') 0)) [
    | inl empty ↦
        rw empty
          (λ k. (sym (same k) ∙ contains_key-empty m' k empty, contains_key-empty m' k empty))
    | inr more ↦ rw more same
  ]

  -- A poll takes out exactly the future that it reports, says that it is at its end only on an empty
  -- map, and otherwise keeps all keys.
  pub poll_next-Finished : (m : HashMap K F) → Finished m (poll_next m).0 (poll_next m).1
  unfolding poll_next HashMap.contains_key HashMap.get
  poll_next-Finished m =
      report-Finished m (record { entries = (poll_entries m.entries).1 }) (poll_entries m.entries).0
        (poll_entries-keys m.entries) (poll_entries-found m.entries)
