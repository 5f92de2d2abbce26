-- ===== src/Streams/Predicate.antt =====
-- kube-runtime/src/utils/predicate.rs: passes on the objects whose property has changed. A hash of a
-- property is a number; the hash of a pair is a parameter.
use kube.Prelude.{
  EqLaws, ℕ, Bool, true, not, Option, none, some, [], ◌∷◌, Result, ok, err, ◌>>=◌, Poll, ready,
  pending, Stream, if◌then◌else◌, nat_beq,
}
use kube.Prelude.HashMap
use kube.Prelude.HashMap.{HashMap, get-insert}
use kube.Core.Resource.{Resource, MissingField}
use kube.Watcher.{Error}
use kube.Reflector.ObjectRef.{ObjectRef, object_ref_eq, from_obj_with}

abbrev or_else : Option ℕ → Option ℕ → Option ℕ
or_else (some a) b = some a
or_else none b = b

-- `Predicate::fallback`: another property where the first is missing.
unfoldable pub fallback : {K : Type 0} → (K → Option ℕ) → (K → Option ℕ) → K → Option ℕ
fallback f g obj = or_else (f obj) (g obj)

abbrev combined : (Option ℕ → Option ℕ → ℕ) → Option ℕ → Option ℕ → Option ℕ
combined hash none none = none
combined hash none (some b) = some (hash none (some b))
combined hash (some a) b = some (hash (some a) b)

-- `Predicate::combine`: the hash of both properties, unless both are missing.
unfoldable pub combine :
    {K : Type 0} → (Option ℕ → Option ℕ → ℕ) → (K → Option ℕ) → (K → Option ℕ) → K → Option ℕ
combine hash f g obj = combined hash (f obj) (g obj)

pub record PredicateFilter {K : Type 0} (r : Resource K) : Type 0 where
  pub stream : Stream (Result Error K)
  pub cache : HashMap (ObjectRef r.DynamicType) ℕ

unfoldable pub new : {K : Type 0} → (r : Resource K) → Stream (Result Error K) → PredicateFilter r
new r stream = record { stream = stream; cache = HashMap.empty }

module _ {K : Type 0} (r : Resource K) ⦃e : EqLaws r.DynamicType⦄ (dyntype : r.DynamicType)
    (predicate : K → Option ℕ) where
  abbrev pub Polled : Type 0
  Polled = Result MissingField (Poll (Option (Result Error K)) × PredicateFilter r)

  abbrev pub changed : Option ℕ → ℕ → Bool
  changed none val = true
  changed (some old) val = not (nat_beq old val)

  abbrev pub left :
      Stream (Result Error K) → HashMap (ObjectRef r.DynamicType) ℕ → PredicateFilter r
  left stream cache = record { stream = stream; cache = cache }

  -- An object with a hash, and what to go on with. The type of the objects has a default.
  unfoldable pub on_hash :
      K
      → ℕ
      → Stream (Result Error K)
      → HashMap (ObjectRef r.DynamicType) ℕ
      → (HashMap (ObjectRef r.DynamicType) ℕ → Polled)
      → Polled
  on_hash obj val stream cache again = do
    key ← from_obj_with r obj dyntype
    let cache' = HashMap.insert key val cache in
        if changed (HashMap.get cache key) val
        then ok (ready (some (ok obj)), left stream cache')
        else again cache'

  unfoldable pub poll_loop : Stream (Result Error K) → HashMap (ObjectRef r.DynamicType) ℕ → Polled
  unfolding on_hash
  poll_loop [] cache = ok (pending, left [] cache)
  poll_loop (pending ∷ stream) cache = ok (pending, left stream cache)
  poll_loop (ready none ∷ stream) cache = ok (ready none, left stream cache)
  poll_loop (ready (some (err x)) ∷ stream) cache = ok (ready (some (err x)), left stream cache)
  poll_loop (ready (some (ok obj)) ∷ stream) cache =
      let again = poll_loop stream in
      elim (predicate obj) [
        | some val ↦ on_hash obj val stream cache again
        | none ↦ ok (ready (some (ok obj)), left stream cache)
      ]

  unfoldable pub poll_next : PredicateFilter r → Polled
  unfolding poll_loop
  poll_next me = poll_loop me.stream me.cache
