-- ===== src/Reflector/Store.antt =====
-- kube-runtime/src/reflector/store.rs: the cache behind a reflector. The lock is not modelled: a
-- write is one step.
pub mod Contents
use kube.Prelude.{
  EqLaws, ◌==◌, ℕ, Bool, true, false, Option, none, some, List, [], ◌∷◌, Result, ok, err, ◌>>=◌,
  find, nat_beq, if◌then◌else◌,
}
use kube.Prelude.HashMap
use kube.Prelude.HashMap.{HashMap}
use kube.Core.Resource.{Resource, MissingField}
use kube.Watcher.Events.{Event, applied, deleted, restarted}
use kube.Reflector.ObjectRef.{ObjectRef, object_ref_eq, from_obj_with}

-- The writer holds the initializer of the readiness flag until the first event.
pub record Writer {K : Type 0} (r : Resource K) : Type 0 where
  pub store : HashMap (ObjectRef r.DynamicType) K
  pub dyntype : r.DynamicType
  pub holds_ready_tx : Bool
  pub is_ready : Bool

module _ {K : Type 0} (r : Resource K) ⦃e : EqLaws r.DynamicType⦄ where
  abbrev pub Cache : Type 0
  Cache = HashMap (ObjectRef r.DynamicType) K

  unfoldable pub new : r.DynamicType → Writer r
  new dyntype = record {
    store = HashMap.empty;
    dyntype = dyntype;
    holds_ready_tx = true;
    is_ready = false;
  }

  -- `collect` into a map: of equal keys the last one wins.
  unfoldable pub collect : r.DynamicType → List K → Cache → Result MissingField Cache
  collect dyntype [] store = ok store
  collect dyntype (obj ∷ objs) store = do
    key ← from_obj_with r obj dyntype
    collect dyntype objs (HashMap.insert key obj store)

  unfoldable pub write_event : Event K → Writer r → Result MissingField (Writer r)
  unfolding collect
  write_event (applied obj) w = do
    key ← from_obj_with r obj w.dyntype
    ok (record w { store = HashMap.insert key obj w.store })
  write_event (deleted obj) w = do
    key ← from_obj_with r obj w.dyntype
    ok (record w { store = HashMap.remove key w.store })
  write_event (restarted new_objs) w = do
    store ← collect w.dyntype new_objs HashMap.empty
    ok (record w { store = store })

  -- The first event marks the store as ready.
  abbrev mark_ready : Writer r → Writer r
  mark_ready w =
      if w.holds_ready_tx then record w { holds_ready_tx = false; is_ready = true } else w

  unfoldable pub apply_watcher_event : Event K → Writer r → Result MissingField (Writer r)
  unfolding write_event
  apply_watcher_event event w = do w' ← write_event event w; ok (mark_ready w')

  abbrev or_else : {A : Type 0} → Option A → Option A → Option A
  or_else none b = b
  or_else (some a) b = some a

  -- Reads without the namespace if nothing is found with it.
  unfoldable pub get : Writer r → ObjectRef r.DynamicType → Option K
  get w key =
      or_else (HashMap.get w.store key) (HashMap.get w.store (record key { namespace = none }))

  unfoldable pub state : Writer r → List K
  state w = HashMap.values w.store

  unfoldable pub find_by : (K → Bool) → Writer r → Option K
  find_by predicate w = find predicate (HashMap.values w.store)

  unfoldable pub len : Writer r → ℕ
  len w = HashMap.len w.store

  unfoldable pub is_empty : Writer r → Bool
  is_empty w = nat_beq (HashMap.len w.store) 0
