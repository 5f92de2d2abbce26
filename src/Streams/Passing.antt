-- ===== src/Streams/Passing.antt =====
-- What the filter of kube-runtime/src/utils/predicate.rs passes on.
use kube.Prelude.{
  EqLaws, ◌==◌, nat_eq, option_eq, true, false, not, ◌∙◌, ◌≡◌, refl, sym, ap, ℕ, Bool, Option, none,
  some, [], ◌∷◌, Result, ok, err, Poll, ready, pending, Stream, poll_stream, if◌then◌else◌, inl,
  inr, Option-cases, Bool-cases, All,
}
use kube.Prelude.HashMap
use kube.Prelude.HashMap.{HashMap, get-insert}
use kube.Core.Resource.{Resource}
use kube.Watcher.{Error}
use kube.Reflector.ObjectRef.{ObjectRef, object_ref_eq}
use kube.Reflector.Store.Contents.{IsNamed, ref, from_obj_with-ref}
use kube.Streams.Predicate.{PredicateFilter, Polled, changed, left, on_hash, poll_loop, poll_next}

module _ {K : Type 0} (r : Resource K) ⦃e : EqLaws r.DynamicType⦄ (dyntype : r.DynamicType)
    (predicate : K → Option ℕ) where
  -- The hashes that were seen last, as a function.
  abbrev Seen : Type 0
  Seen = ObjectRef r.DynamicType → Option ℕ

  abbrev see : K → ℕ → Seen → Seen
  see obj val seen key = if ref r dyntype obj == key then some val else seen key

  -- An object is passed on if it has no hash, or if that hash is not the one that was seen last of its
  -- reference.
  abbrev pass_if : Bool → K → Stream (Result Error K) → Stream (Result Error K)
  pass_if same obj rest = if same then rest else ready (some (ok obj)) ∷ rest

  abbrev pass : K → Option ℕ → (Seen → Stream (Result Error K)) → Seen → Stream (Result Error K)
  pass obj none rest seen = ready (some (ok obj)) ∷ rest seen
  pass obj (some val) rest seen =
      pass_if (seen (ref r dyntype obj) == some val) obj (rest (see obj val seen))

  -- The answers that should come of a stream, given the hashes that were seen.
  abbrev pub passed : Stream (Result Error K) → Seen → Stream (Result Error K)
  passed [] seen = []
  passed (pending ∷ stream) seen = pending ∷ passed stream seen
  passed (ready none ∷ stream) seen = ready none ∷ passed stream seen
  passed (ready (some (err x)) ∷ stream) seen = ready (some (err x)) ∷ passed stream seen
  passed (ready (some (ok obj)) ∷ stream) seen = pass obj (predicate obj) (passed stream) seen

  is_changed :
      (seen : Option ℕ) (val : ℕ) → changed r dyntype predicate seen val ≡ not (seen == some val)
  is_changed none val = refl
  is_changed (some old) val = refl

  abbrev pub remaining : PredicateFilter r → Stream (Result Error K)
  remaining me = passed me.stream (HashMap.get me.cache)

  Same : Seen → Seen → Type 0
  Same seen seen' = (key : ObjectRef r.DynamicType) → seen key ≡ seen' key

  pass-Same :
      (obj : K) (hash : Option ℕ) (rest : Seen → Stream (Result Error K)) (seen seen' : Seen)
      → ((s s' : Seen) → Same s s' → rest s ≡ rest s')
      → Same seen seen'
      → pass obj hash rest seen ≡ pass obj hash rest seen'
  unfolding Same
  pass-Same obj none rest seen seen' keep h =
      ap (λ l. ready (some (ok obj)) ∷ l) (keep seen seen' h)
  pass-Same obj (some val) rest seen seen' keep h =
      rw
        (
          h (ref r dyntype obj),
          keep (see obj val seen) (see obj val seen') (λ key. rw (h key) refl),
        )
        refl

  passed-Same :
      (stream : Stream (Result Error K)) (seen seen' : Seen)
      → Same seen seen'
      → passed stream seen ≡ passed stream seen'
  passed-Same [] seen seen' h = refl
  passed-Same (pending ∷ stream) seen seen' h =
      ap (λ l. pending ∷ l) (passed-Same stream seen seen' h)
  passed-Same (ready none ∷ stream) seen seen' h =
      ap (λ l. ready none ∷ l) (passed-Same stream seen seen' h)
  passed-Same (ready (some (err x)) ∷ stream) seen seen' h =
      ap (λ l. ready (some (err x)) ∷ l) (passed-Same stream seen seen' h)
  passed-Same (ready (some (ok obj)) ∷ stream) seen seen' h =
      pass-Same obj (predicate obj) (passed stream) seen seen' (passed-Same stream) h

  abbrev pub Passed : Stream (Result Error K) → Polled r dyntype predicate → Type 0
  Passed before answer =
      (a : Poll (Option (Result Error K))) × (me : PredicateFilter r) × (answer ≡ ok (a, me))
      × (poll_stream before ≡ (a, remaining me))

  abbrev pub Named : Poll (Option (Result Error K)) → Type 0
  Named (ready (some (ok obj))) = IsNamed r obj
  Named (ready (some (err x))) = Unit
  Named (ready none) = Unit
  Named pending = Unit

  on_hash-Passed :
      (obj : K) (val : ℕ) (stream : Stream (Result Error K))
      (cache : HashMap (ObjectRef r.DynamicType) ℕ)
      → IsNamed r obj
      → ((cache' : HashMap (ObjectRef r.DynamicType) ℕ)
          → Passed
              (passed stream (HashMap.get cache'))
              (poll_loop r dyntype predicate stream cache'))
      → Passed
          (pass obj (some val) (passed stream) (HashMap.get cache))
          (on_hash r dyntype predicate obj val stream cache (poll_loop r dyntype predicate stream))
  unfolding on_hash Same
  on_hash-Passed obj val stream cache named again =
      let key = ref r dyntype obj in
      let cache' = HashMap.insert key val cache in
      let same : passed stream (see obj val (HashMap.get cache))
          ≡ passed stream (HashMap.get cache') =
        passed-Same stream _ _ (λ j. sym (get-insert key j val cache)) in
      let now = is_changed (HashMap.get cache key) val in
      elim (Bool-cases (HashMap.get cache key == some val)) [
        | inl old ↦
            let (a, me, done, rest) = again cache' in
            let still : changed r dyntype predicate (HashMap.get cache key) val ≡ false =
              now ∙ ap not old in
            (a, me, rw (from_obj_with-ref r obj dyntype named, still) done, rw (old, same) rest)
        | inr new ↦
            let differs : changed r dyntype predicate (HashMap.get cache key) val ≡ true =
              now ∙ ap not new in
            (
              ready (some (ok obj)),
              left r dyntype predicate stream cache',
              rw (from_obj_with-ref r obj dyntype named, differs),
              rw (new, same),
            )
      ]

  poll_loop-Passed :
      (stream : Stream (Result Error K)) (cache : HashMap (ObjectRef r.DynamicType) ℕ)
      → All Named stream
      → Passed (passed stream (HashMap.get cache)) (poll_loop r dyntype predicate stream cache)
  unfolding poll_loop
  poll_loop-Passed [] cache named = (_, _, refl, refl)
  poll_loop-Passed (pending ∷ stream) cache named = (_, _, refl, refl)
  poll_loop-Passed (ready none ∷ stream) cache named = (_, _, refl, refl)
  poll_loop-Passed (ready (some (err x)) ∷ stream) cache named = (_, _, refl, refl)
  poll_loop-Passed (ready (some (ok obj)) ∷ stream) cache named =
      elim (Option-cases (predicate obj)) [
        | inl missing ↦ (
          ready (some (ok obj)),
          left r dyntype predicate stream cache,
          rw (missing, poll_loop),
          rw missing,
        )
        | inr (val, found) ↦
            let (a, me, done, rest) =
              on_hash-Passed obj val stream cache named.0
                (λ cache'. poll_loop-Passed stream cache' named.1) in
            (a, me, rw (found, poll_loop) done, rw found rest)
      ]

  -- If the objects have names, a poll does not panic, and it answers as the stream does that has the
  -- answers of the inner one, but for the objects that have a hash which is the one that was seen last
  -- of their reference. What the filter then still stands for is the rest of that stream.
  pub poll_next-Passed :
      (me : PredicateFilter r)
      → All Named me.stream
      → Passed (remaining me) (poll_next r dyntype predicate me)
  unfolding poll_next
  poll_next-Passed me named = poll_loop-Passed me.stream me.cache named
