-- ===== src/Watcher/Follow.antt =====
-- kube-runtime/src/watcher.rs behind a reflector (kube-runtime/src/reflector): the cache follows the
-- cluster.
use kube.Prelude.{
  Bool, true, false, ◌||◌, subst, EqLaws, ◌≡◌, refl, sym, ◌∙◌, ap, Option, none, some, String,
  Result, ok, err, All, nat_beq, inl, inr, Bool-cases, Option-cases,
}
use kube.Core.Resource.{
  Resource, WatchEvent, added, modified, bookmark, ObjectList, resource_version, MissingField,
}
use kube.Reflector.Store.{Writer, apply_watcher_event}
use kube.Reflector.Store.Contents.{
  Same, IsNamed, listed, after, contents, apply_watcher_event-after, after-Same,
}
use kube.Watcher.Events.{Event, applied, deleted, restarted, into_iter_touched}
use kube.Watcher.Options.{Config, to_list_params, to_watch_params}
use kube.Watcher.{
  ApiMode, ClientErr, Error, Fault, State, empty, init_listed, watching, Item, Stepped, on_list,
  on_watch, on_object, on_next, step_trampolined,
}
use kube.Watcher.Server.{ServerLaws}

module _ {K : Type 0} {r : Resource K} ⦃e : EqLaws r.DynamicType⦄ {a : ApiMode K} {wc : Config}
    {dyntype : r.DynamicType} (laws : ServerLaws r a wc dyntype) where
  -- The reflector looks at the events that are no errors: `inspect_ok`.
  abbrev pub inspect : Option (Item r a) → Writer r → Result MissingField (Writer r)
  inspect none w = ok w
  inspect (some (err x)) w = ok w
  inspect (some (ok event)) w = apply_watcher_event r event w

  -- Unless a new list is due, or an event was lost since the last one, the cache holds the content of
  -- the version where the watch resumes.
  abbrev pub Follows : Bool → State a.Stream → Writer r → Type 0
  Follows lost empty w = Unit
  Follows lost (init_listed v) w = lost ≡ false → Same r (contents r w) (laws.snapshot v)
  Follows lost (watching v s) w =
      lost ≡ false → (laws.position s ≡ v) × Same r (contents r w) (laws.snapshot v)

  abbrev lost_item : {A : Type 0} → Bool → Option A × a.Stream × a.World → Bool
  lost_item lost (none, s, world) = lost
  lost_item lost (some item, s, world) = lost || laws.lossy s

  -- Whether an event was lost since the last list, once a step is done: a list makes up for all that
  -- was lost before it.
  abbrev pub lost_after : Bool → State a.Stream → a.World → Bool
  lost_after lost empty world = false
  lost_after lost (init_listed v) world = lost
  lost_after lost (watching v s) world = lost_item lost (a.next s world)

  abbrev pub Reflected : Bool → Writer r → Result Fault (Stepped r a) → Type 0
  Reflected lost w answer =
      (event : Option (Item r a)) × (state : State a.Stream) × (world : a.World) × (w' : Writer r)
      × (answer ≡ ok (event, state, world))
      × (inspect event w ≡ ok w')
      × Follows lost state w'
      × (w'.dyntype ≡ dyntype)

  -- An event that leads from one content to the next, seen by the cache.
  object_Reflected :
      (lost : Bool) (event : Event K) (obj : K) (s s' : a.Stream) (world : a.World) (w : Writer r)
      → All (IsNamed r) (into_iter_touched event)
      → resource_version r obj ≡ some (laws.position s')
      → (lost ≡ false
          → Same r
              (laws.snapshot (laws.position s'))
              (after r dyntype event (laws.snapshot (laws.position s))))
      → (lost ≡ false → Same r (contents r w) (laws.snapshot (laws.position s)))
      → w.dyntype ≡ dyntype
      → Reflected lost w (on_object r a event obj s' world)
  unfolding on_object
  object_Reflected lost event obj s s' world w named version moves same type =
      let (w', done, held, type', _) = apply_watcher_event-after r event w named in
      (
        some (ok event),
        watching (laws.position s') s',
        world,
        w',
        rw (version, on_object),
        done,
        λ all. (
          refl,
          λ key.
              held key
              ∙ ap (λ d. after r d event (contents r w) key) type
              ∙ after-Same r dyntype event (contents r w) (laws.snapshot (laws.position s))
                  (same all) key
              ∙ sym (moves all key),
        ),
        type' ∙ type,
      )

  list_Reflected :
      (answer : Result ClientErr (ObjectList K)) (world world' : a.World) (w : Writer r)
      → a.list (to_list_params wc) world ≡ (answer, world')
      → w.dyntype ≡ dyntype
      → Reflected false w (ok (on_list r a (answer, world')))
  unfolding on_list
  list_Reflected (err x) world world' w listing type =
      (some (err (Error.initial_list_failed x)), empty, world', w, refl, refl, tt, type)
  list_Reflected (ok l) world world' w listing type = elim (Option-cases l.resource_version) [
    | inl missing ↦
        (some (err Error.no_resource_version), empty, world', w, rw missing, refl, tt, type)
    | inr (v, found) ↦
        let (named, shown) = laws.list_law world world' l v listing found in
        let (w', done, held, type', _) =
          apply_watcher_event-after r (restarted l.items) w (unfold into_iter_touched in named) in
        (
          some (ok (restarted l.items)),
          init_listed v,
          world',
          w',
          rw found,
          done,
          λ all key. held key ∙ ap (λ d. listed r d l.items key) type ∙ sym (shown key),
          type' ∙ type,
        )
  ]

  watch_Reflected :
      (lost : Bool) (answer : Result ClientErr a.Stream) (v : String) (world world' : a.World)
      (w : Writer r)
      → a.watch (to_watch_params wc) v world ≡ (answer, world')
      → (lost ≡ false → Same r (contents r w) (laws.snapshot v))
      → w.dyntype ≡ dyntype
      → Reflected lost w (ok (on_watch r a v (answer, world')))
  unfolding on_watch
  watch_Reflected lost (err x) v world world' w started same type =
      (some (err (Error.watch_start_failed x)), init_listed v, world', w, refl, refl, same, type)
  watch_Reflected lost (ok s) v world world' w started same type = (
    none,
    watching v s,
    world',
    w,
    refl,
    refl,
    λ all. (laws.watch_law world world' v s started, same all),
    type,
  )

  none_lost : (lost lossy : Bool) → (lost || lossy) ≡ false → lossy ≡ false
  none_lost false lossy h = h
  none_lost true lossy h = absurd cc

  none_lost_before : (lost lossy : Bool) → (lost || lossy) ≡ false → lost ≡ false
  none_lost_before false lossy h = refl
  none_lost_before true lossy h = h

  next_Reflected :
      (lost : Bool) (answer : Option (Result ClientErr (WatchEvent K))) (v : String)
      (s s' : a.Stream) (world world' : a.World) (w : Writer r)
      → a.next s world ≡ (answer, s', world')
      → (lost_item lost (answer, s', world') ≡ false
          → (laws.position s ≡ v) × Same r (contents r w) (laws.snapshot v))
      → w.dyntype ≡ dyntype
      → Reflected (lost_item lost (answer, s', world')) w (on_next r a v (answer, s', world'))
  unfolding on_next into_iter_touched
  next_Reflected lost none v s s' world world' w came held type =
      (none, init_listed v, world', w, refl, refl, λ all. (held all).1, type)
  next_Reflected lost (some (err x)) v s s' world world' w came held type = (
    some (err (Error.watch_failed x)),
    watching v s',
    world',
    w,
    refl,
    refl,
    λ all. (
      laws.failure_law world world' s s' x came (none_lost lost (laws.lossy s') all) ∙ (held all).0,
      (held all).1,
    ),
    type,
  )
  next_Reflected lost (some (ok (added obj))) v s s' world world' w came held type =
      let (named, version, moves) = laws.added_law world world' s s' obj came in
      object_Reflected (lost || laws.lossy s') (applied obj) obj s s' world' w (named, tt) version
        (λ all. moves (none_lost lost (laws.lossy s') all))
        (λ all.
          subst (λ v. Same r (contents r w) (laws.snapshot v)) (sym (held all).0) (held all).1)
        type
  next_Reflected lost (some (ok (modified obj))) v s s' world world' w came held type =
      let (named, version, moves) = laws.modified_law world world' s s' obj came in
      object_Reflected (lost || laws.lossy s') (applied obj) obj s s' world' w (named, tt) version
        (λ all. moves (none_lost lost (laws.lossy s') all))
        (λ all.
          subst (λ v. Same r (contents r w) (laws.snapshot v)) (sym (held all).0) (held all).1)
        type
  next_Reflected lost (some (ok (WatchEvent.deleted obj))) v s s' world world' w came held type =
      let (named, version, moves) = laws.deleted_law world world' s s' obj came in
      object_Reflected (lost || laws.lossy s') (deleted obj) obj s s' world' w (named, tt) version
        (λ all. moves (none_lost lost (laws.lossy s') all))
        (λ all.
          subst (λ v. Same r (contents r w) (laws.snapshot v)) (sym (held all).0) (held all).1)
        type
  next_Reflected lost (some (ok (bookmark bm))) v s s' world world' w came held type =
      let (there, kept) = laws.bookmark_law world world' s s' bm came in
      (
        none,
        watching bm.metadata.resource_version s',
        world',
        w,
        refl,
        refl,
        λ all. (
          there,
          λ key.
              (held all).1 key
              ∙ ap (λ v. laws.snapshot v key) (sym (held all).0)
              ∙ sym (kept (none_lost lost (laws.lossy s') all) key)
              ∙ ap (λ v. laws.snapshot v key) there,
        ),
        type,
      )
  next_Reflected lost (some (ok (WatchEvent.error x))) v s s' world world' w came held type =
      elim (Bool-cases (nat_beq x.code 410)) [
        | inl gone ↦ (some (err (Error.watch_error x)), empty, world', w, rw gone, refl, tt, type)
        | inr other ↦ (
          some (err (Error.watch_error x)),
          watching v s',
          world',
          w,
          rw other,
          refl,
          λ all. (
            laws.error_law world world' s s' x came (none_lost lost (laws.lossy s') all)
                ∙ (held all).0,
            (held all).1,
          ),
          type,
        )
      ]

  kept_none :
      {A : Type 0} (lost : Bool) (answer : Option A × a.Stream × a.World)
      → lost_item lost answer ≡ false
      → lost ≡ false
  kept_none lost (none, s, world) h = h
  kept_none lost (some item, s, world) h = none_lost_before lost (laws.lossy s) h

  -- The central promise of watcher and reflector, over an API server that keeps its documentation.
  -- As long as no new list is due and the client has lost no event since the last one, the cache holds
  -- what the cluster holds at the version where the watch resumes. Every step of the watcher,
  -- whatever it receives, succeeds, the cache takes its event, and the promise is kept; a list
  -- renews it whatever was lost before.
  pub step_trampolined-Reflected :
      (lost : Bool) (state : State a.Stream) (world : a.World) (w : Writer r)
      → Follows lost state w
      → w.dyntype ≡ dyntype
      → Reflected (lost_after lost state world) w (step_trampolined r a wc state world)
  unfolding step_trampolined
  step_trampolined-Reflected lost empty world w follows type =
      list_Reflected (a.list (to_list_params wc) world).0 world _ w refl type
  step_trampolined-Reflected lost (init_listed v) world w follows type =
      watch_Reflected lost (a.watch (to_watch_params wc) v world).0 v world _ w refl follows type
  step_trampolined-Reflected lost (watching v s) world w follows type =
      next_Reflected lost (a.next s world).0 v s _ world _ w refl
        (λ all. follows (kept_none lost (a.next s world) all)) type
