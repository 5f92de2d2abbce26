-- ===== src/Reflector/Store/Contents.antt =====
-- What the cache of kube-runtime/src/reflector/store.rs holds, as a function of references.
use kube.Prelude.{
  EqLaws, ◌==◌, ◌≡◌, refl, ◌∙◌, ap, true, false, Option, none, some, List, [], ◌∷◌, String, Result,
  ok, ◌>>=◌, All, if◌then◌else◌, arith, is_some,
}
use kube.Prelude.HashMap
use kube.Prelude.HashMap.{HashMap, get-insert, get-remove, get-empty}
use kube.Core.Resource.{Resource, MissingField}
use kube.Watcher.Events.{Event, applied, deleted, restarted, into_iter_touched}
use kube.Reflector.ObjectRef.{ObjectRef, object_ref_eq, from_obj_with}
use kube.Reflector.Store.{Writer, Cache, collect, write_event, apply_watcher_event, get, mark_ready}

module _ {K : Type 0} (r : Resource K) where
  -- The object has a name, as every object of the API server has.
  abbrev pub IsNamed : K → Type 0
  IsNamed obj = is_some (r.meta obj).name ≡ true

  abbrev name_or_empty : Option String → String
  name_or_empty none = ""
  name_or_empty (some name) = name

  -- The reference of an object.
  abbrev pub ref : r.DynamicType → K → ObjectRef r.DynamicType
  ref dyntype obj = record {
    dyntype = dyntype;
    name = name_or_empty (r.meta obj).name;
    namespace = (r.meta obj).namespace;
    extra = record { resource_version = (r.meta obj).resource_version; uid = (r.meta obj).uid };
  }

  pub from_obj_with-ref :
      (obj : K) (dyntype : r.DynamicType)
      → IsNamed obj
      → from_obj_with r obj dyntype ≡ ok (ref dyntype obj)
  unfolding from_obj_with
  from_obj_with-ref obj dyntype named = ground arith

  -- A cache as a function: what is known of each reference.
  abbrev pub Contents : Type 0
  Contents = ObjectRef r.DynamicType → Option K

  module _ ⦃e : EqLaws r.DynamicType⦄ where
    abbrev pub Same : Contents → Contents → Type 0
    Same c c' = (key : ObjectRef r.DynamicType) → c key ≡ c' key

    -- The last of the objects with a reference.
    abbrev later : Option K → Option K → Option K
    later (some x) o = some x
    later none o = o

    abbrev pub listed : r.DynamicType → List K → Contents
    listed dyntype [] key = none
    listed dyntype (obj ∷ objs) key =
        later (listed dyntype objs key) (if ref dyntype obj == key then some obj else none)

    -- What an event should do: `applied` and `deleted` change one reference, `restarted` replaces
    -- everything.
    abbrev pub after : r.DynamicType → Event K → Contents → Contents
    after dyntype (applied obj) c key = if ref dyntype obj == key then some obj else c key
    after dyntype (deleted obj) c key = if ref dyntype obj == key then none else c key
    after dyntype (restarted objs) c key = listed dyntype objs key

    abbrev pub contents : Writer r → Contents
    contents w key = HashMap.get w.store key

    collect-listed :
        (dyntype : r.DynamicType) (objs : List K) (store : Cache r)
        → All IsNamed objs
        → (store' : Cache r) × (collect r dyntype objs store ≡ ok store')
          × ((key : ObjectRef r.DynamicType)
              → HashMap.get store' key ≡ later (listed dyntype objs key) (HashMap.get store key))
    unfolding collect
    collect-listed dyntype [] store named = (store, refl, λ key. refl)
    collect-listed dyntype (obj ∷ objs) store named =
        let put = HashMap.insert (ref dyntype obj) obj store in
        let (store', done, rest) = collect-listed dyntype objs put named.1 in
        (
          store',
          rw (from_obj_with-ref obj dyntype named.0) done,
          λ key. ground (arith, rest key, get-insert (ref dyntype obj) key obj store),
        )

    -- The writer after an event, whose contents are given.
    abbrev pub Wrote : Writer r → Contents → Result MissingField (Writer r) → Type 0
    Wrote w c answer =
        (w' : Writer r) × (answer ≡ ok w')
        × Same (contents w') c
        × (w'.dyntype ≡ w.dyntype)
        × (w'.holds_ready_tx ≡ false)

    marked :
        (event : Event K) (w w' : Writer r) (c : Contents)
        → write_event r event w ≡ ok w'
        → Same (contents w') c
        → w'.dyntype ≡ w.dyntype
        → Wrote w c (apply_watcher_event r event w)
    unfolding apply_watcher_event
    marked event w w' c written same dyntype =
        (mark_ready r w', rw written, λ key. ground (arith, same key), ground arith, ground arith)

    -- An event whose objects have names is written without a panic, changes what the cache holds as
    -- it should, for every reference, and uses up the initializer of the readiness flag.
    pub apply_watcher_event-after :
        (event : Event K) (w : Writer r)
        → All IsNamed (into_iter_touched event)
        → Wrote w (after w.dyntype event (contents w)) (apply_watcher_event r event w)
    unfolding write_event into_iter_touched
    apply_watcher_event-after (applied obj) w named =
        let key = ref w.dyntype obj in
        marked (applied obj) w (record w { store = HashMap.insert key obj w.store }) _
          (rw (from_obj_with-ref obj w.dyntype named.0)) (λ j. get-insert key j obj w.store) refl
    apply_watcher_event-after (deleted obj) w named =
        let key = ref w.dyntype obj in
        marked (deleted obj) w (record w { store = HashMap.remove key w.store }) _
          (rw (from_obj_with-ref obj w.dyntype named.0)) (λ j. get-remove key j w.store) refl
    apply_watcher_event-after (restarted objs) w named =
        let (store, done, held) = collect-listed w.dyntype objs HashMap.empty named in
        marked (restarted objs) w (record w { store = store }) _ (rw done)
          (λ j. ground (arith, held j, get-empty {V = K} j)) refl

    -- Once an object without a namespace is applied to a cache that holds nothing at its reference
    -- within some namespace, a lookup of that reference finds the object.
    pub get-applied :
        (obj : K) (w w' : Writer r) (key : ObjectRef r.DynamicType)
        → IsNamed obj
        → contents w key ≡ none
        → (ref w.dyntype obj == record key { namespace = none }) ≡ true
        → apply_watcher_event r (applied obj) w ≡ ok w'
        → get r w' key ≡ some obj
    unfolding get into_iter_touched
    get-applied obj w w' key named nothing unscoped done =
        let (v, written, held, _, _) = apply_watcher_event-after (applied obj) w (named, tt) in
        let same : v ≡ w' = ground arith in
        rw (← same, held key, held (record key { namespace = none }), unscoped, nothing)
          (ground arith)

    -- The contents after a series of events, from any contents.
    abbrev pub replay : r.DynamicType → List (Event K) → Contents → Contents
    replay dyntype [] c = c
    replay dyntype (event ∷ events) c = replay dyntype events (after dyntype event c)

    abbrev pub apply_all : List (Event K) → Writer r → Result MissingField (Writer r)
    apply_all [] w = ok w
    apply_all (event ∷ events) w = do w' ← apply_watcher_event r event w; apply_all events w'

    pub after-Same :
        (dyntype : r.DynamicType) (event : Event K) (c c' : Contents)
        → Same c c'
        → Same (after dyntype event c) (after dyntype event c')
    after-Same dyntype (applied obj) c c' h key = rw (h key)
    after-Same dyntype (deleted obj) c c' h key = rw (h key)
    after-Same dyntype (restarted objs) c c' h key = refl

    replay-Same :
        (dyntype : r.DynamicType) (events : List (Event K)) (c c' : Contents)
        → Same c c'
        → Same (replay dyntype events c) (replay dyntype events c')
    replay-Same dyntype [] c c' h = h
    replay-Same dyntype (event ∷ events) c c' h =
        replay-Same dyntype events _ _ (after-Same dyntype event c c' h)

    -- A series of events whose objects have names leaves the cache with what replaying them gives.
    pub apply_all-replay :
        (events : List (Event K)) (w : Writer r)
        → All (λ event. All IsNamed (into_iter_touched event)) events
        → (w' : Writer r) × (apply_all events w ≡ ok w')
          × Same (contents w') (replay w.dyntype events (contents w))
    apply_all-replay [] w named = (w, refl, λ key. refl)
    apply_all-replay (event ∷ events) w named =
        let (w1, done, same, dyntype, _) = apply_watcher_event-after event w named.0 in
        let (w2, rest, held) = apply_all-replay events w1 named.1 in
        (
          w2,
          rw done rest,
          λ key.
              held key
              ∙ ap (λ d. replay d events (contents w1) key) dyntype
              ∙ replay-Same w.dyntype events _ _ same key,
        )
