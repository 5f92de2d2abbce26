-- ===== src/Wait/Waiting.antt =====
-- What `await_condition` and `delete_and_finalize` of kube-runtime/src/wait.rs wait for.
use kube.Prelude.{
  arith, ◌≡◌, ◌≢◌, ◌∙◌, string_iff, ◌==◌, string_eq, option_eq, refl, ap, ◌⊎◌, inl, inr, true,
  false, Option, none, some, [], ◌∷◌, ◌++◌, String, Result, ok, err, Poll, ready, pending, Stream,
  All, Bool-cases,
}
use kube.Core.Resource.{Resource}
use kube.Watcher.{single_object}
use kube.Watcher
use kube.Watcher.Events.{Event, applied, deleted, restarted}
use kube.Wait.Conditions.{Condition, is_deleted}
use kube.Wait.{
  object, status, probe_failed, stream_terminated, await_condition, Awaited, skip_while, Deletion,
  deleted_uid, delete_and_finalize,
}

abbrev pub Items : Type 0 → Type 0
Items K = Stream (Result Watcher.Error (Event K))

differs : (found : Option String) (uid : String) → found ≢ some uid → (found == some uid) ≡ false
differs none uid other = refl
differs (some u) uid other = elim (Bool-cases (u == uid)) [
  | inl same ↦ absurd (other (ap some ((string_iff u uid).0 same)))
  | inr h ↦ h
]

module _ {K : Type 0} where
  -- What an item says of the one object that is watched: an error, that it is absent, or the object. A
  -- list of several objects is an error.
  abbrev pub shown : Result Watcher.Error (Event K) → Result Watcher.Error (Option K)
  shown (err e) = err e
  shown (ok (applied obj)) = ok (some obj)
  shown (ok (deleted obj)) = ok none
  shown (ok (restarted [])) = ok none
  shown (ok (restarted (obj ∷ []))) = ok (some obj)
  shown (ok (restarted (obj ∷ other ∷ objs))) = err Watcher.too_many_objects

  single_object-shown : (item : Result Watcher.Error (Event K)) → single_object item ≡ shown item
  unfolding single_object
  single_object-shown (err e) = refl
  single_object-shown (ok (applied obj)) = refl
  single_object-shown (ok (deleted obj)) = refl
  single_object-shown (ok (restarted [])) = refl
  single_object-shown (ok (restarted (obj ∷ []))) = refl
  single_object-shown (ok (restarted (obj ∷ other ∷ objs))) = ground arith

  -- An answer of the stream that is not waited for: none yet, or an object that does not fulfil the
  -- condition.
  abbrev Unfulfilled : Condition K → Result Watcher.Error (Option K) → Type 0
  Unfulfilled cond (ok obj) = cond obj ≡ false
  Unfulfilled cond (err e) = ⊥

  abbrev pub IsSkipped : Condition K → Poll (Option (Result Watcher.Error (Event K))) → Type 0
  IsSkipped cond pending = Unit
  IsSkipped cond (ready none) = ⊥
  IsSkipped cond (ready (some item)) = Unfulfilled cond (shown item)

  abbrev Decisive : Condition K → Result Watcher.Error (Option K) → Awaited K → Type 0
  Decisive cond (ok obj) answer = (cond obj ≡ true) × (answer ≡ ok (ready (ok obj)))
  Decisive cond (err e) answer = answer ≡ ok (ready (err (probe_failed e)))

  -- The first answer that is waited for, and what it gives.
  abbrev pub Decides :
      Condition K → Poll (Option (Result Watcher.Error (Event K))) → Awaited K → Type 0
  Decides cond pending answer = ⊥
  Decides cond (ready none) answer = answer ≡ err stream_terminated
  Decides cond (ready (some item)) answer = Decisive cond (shown item) answer

  abbrev Found : Condition K → Items K → Awaited K → Type 0
  Found cond stream answer =
      (before : Items K) × (p : Poll (Option (Result Watcher.Error (Event K)))) × (rest : Items K)
      × (stream ≡ before ++ (p ∷ rest))
      × All (IsSkipped cond) before
      × Decides cond p answer

  abbrev pub Waited : Condition K → Items K → Awaited K → Type 0
  Waited cond stream answer =
      ((answer ≡ ok pending) × All (IsSkipped cond) stream) ⊎ Found cond stream answer

  skip :
      (cond : Condition K) {stream : Items K} {answer : Awaited K}
      (p : Poll (Option (Result Watcher.Error (Event K))))
      → IsSkipped cond p
      → Waited cond stream answer
      → Waited cond (p ∷ stream) answer
  skip cond p skipped (inl (still, all)) = inl (still, (skipped, all))
  skip cond p skipped (inr (before, q, rest, same, all, decides)) =
      inr (p ∷ before, q, rest, ap (λ l. p ∷ l) same, (skipped, all), decides)

  take :
      (cond : Condition K) (item : Result Watcher.Error (Event K)) (rest : Items K)
      (r : Result Watcher.Error (Option K)) {later : Awaited K}
      → shown item ≡ r
      → Waited cond rest later
      → Waited cond (ready (some item) ∷ rest) (skip_while cond r later)
  take cond item rest (ok obj) h waited = elim (Bool-cases (cond obj)) [
    | inl holds ↦ inr ([], ready (some item), rest, refl, tt, rw (h, holds) (refl, refl))
    | inr fails ↦ rw fails (skip cond (ready (some item)) (rw h fails) waited)
  ]
  take cond item rest (err e) h waited = inr ([], ready (some item), rest, refl, tt, rw h refl)

  -- An answer is there exactly once a poll of the watcher is decisive: the first object, or absence,
  -- that fulfils the condition is returned, an error before it fails the probe, and the end of the
  -- stream is the panic; until then the wait goes on.
  pub await_condition-Waited :
      (cond : Condition K) (stream : Items K) → Waited cond stream (await_condition cond stream)
  unfolding await_condition
  await_condition-Waited cond [] = inl (refl, tt)
  await_condition-Waited cond (pending ∷ rest) =
      skip cond pending tt (await_condition-Waited cond rest)
  await_condition-Waited cond (ready none ∷ rest) = inr ([], ready none, rest, refl, tt, refl)
  await_condition-Waited cond (ready (some item) ∷ rest) =
      rw (single_object-shown item)
        (take cond item rest (shown item) refl (await_condition-Waited cond rest))

  skip_while-skipped :
      (cond : Condition K) (r : Result Watcher.Error (Option K)) (later : Awaited K)
      → Unfulfilled cond r
      → skip_while cond r later ≡ later
  skip_while-skipped cond (ok obj) later fails = rw fails refl
  skip_while-skipped cond (err e) later fails = absurd fails

  await_condition-finds :
      (cond : Condition K) (before rest : Items K) (item : Result Watcher.Error (Event K))
      (obj : Option K)
      → All (IsSkipped cond) before
      → shown item ≡ ok obj
      → cond obj ≡ true
      → await_condition cond (before ++ (ready (some item) ∷ rest)) ≡ ok (ready (ok obj))
  unfolding await_condition
  await_condition-finds cond [] rest item obj all h holds =
      ap (λ r. skip_while cond r (await_condition cond rest)) (single_object-shown item ∙ h)
      ∙ rw holds refl
  await_condition-finds cond (pending ∷ before) rest item obj all h holds =
      await_condition-finds cond before rest item obj all.1 h holds
  await_condition-finds cond (ready none ∷ before) rest item obj all h holds = absurd all.0
  await_condition-finds cond (ready (some x) ∷ before) rest item obj all h holds =
      ap (λ r. skip_while cond r (await_condition cond (before ++ (ready (some item) ∷ rest))))
        (single_object-shown x)
      ∙ skip_while-skipped cond (shown x) _ all.0
      ∙ await_condition-finds cond before rest item obj all.1 h holds

  -- The absence of an object that is due to be deleted: it is reported as deleted, or it is not listed
  -- any more, or it has another identifier.
  abbrev pub IsGone : Resource K → String → Option K → Type 0
  IsGone r uid none = Unit
  IsGone r uid (some obj) = (r.meta obj).uid ≢ some uid

  gone-is_deleted :
      (r : Resource K) (uid : String) (obj : Option K)
      → IsGone r uid obj
      → is_deleted r uid obj ≡ true
  unfolding is_deleted
  gone-is_deleted r uid none gone = refl
  gone-is_deleted r uid (some obj) gone = rw (differs (r.meta obj).uid uid gone) refl

  -- The answer of a delete tells the identifier: of the object, or in the details of a status.
  abbrev pub Tells : Resource K → Deletion K → String → Type 0
  Tells r (object obj) uid = (r.meta obj).uid ≡ some uid
  Tells r (status details) uid = details ≡ some uid

  Tells-deleted_uid :
      (r : Resource K) (answer : Deletion K) (uid : String)
      → Tells r answer uid
      → deleted_uid r answer ≡ some uid
  Tells-deleted_uid r (object obj) uid h = h
  Tells-deleted_uid r (status details) uid h = h

  -- If a delete is answered with an identifier, and the watcher, after answers that are not decisive,
  -- reports that the object is absent or has another identifier, then the call comes to its end, and
  -- with success.
  pub delete_and_finalize-finishes :
      (r : Resource K) (answer : Deletion K) (uid : String) (before rest : Items K)
      (item : Result Watcher.Error (Event K)) (obj : Option K)
      → Tells r answer uid
      → All (IsSkipped (is_deleted r uid)) before
      → shown item ≡ ok obj
      → IsGone r uid obj
      → delete_and_finalize r (ok answer) (before ++ (ready (some item) ∷ rest))
        ≡ ok (ready (ok tt))
  unfolding delete_and_finalize
  delete_and_finalize-finishes r answer uid before rest item obj known all h gone =
      let gone_now = gone-is_deleted r uid obj gone in
      let found = Tells-deleted_uid r answer uid known in
      rw (found, await_condition-finds (is_deleted r uid) before rest item obj all h gone_now) refl
