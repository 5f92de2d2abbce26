-- ===== src/Examples/Watching.antt =====
-- Inputs for the theorems about kube-runtime/src/watcher.rs and reflector: a cluster with one object
-- that is deleted after the first list.
use kube.Prelude.{
  ◌<◌, ℕ, ◌≡◌, refl, Bool, true, false, Option, none, some, List, [], ◌∷◌, String, string_eq, ◌==◌,
  if◌then◌else◌, Result, ok, err, arith, All,
}
use kube.Prelude.HashMap
use kube.Core.Resource.{
  Resource, ObjectMeta, ObjectList, WatchEvent, added, modified, bookmark, resource_version,
}
use kube.Reflector.ObjectRef.{ObjectRef, object_ref_eq}
use kube.Reflector.Store.{Writer, new, apply_watcher_event, get}
use kube.Reflector.Store.Contents.{
  Contents, Same, IsNamed, listed, after, contents, Wrote, apply_watcher_event-after, get-applied,
}
use kube.Watcher.Events.{Event, applied, deleted, restarted}
use kube.Watcher.Options.{default, to_list_params}
use kube.Watcher.{
  ApiMode, ClientErr, Error, Fault, State, empty, init_listed, watching, Item, step_trampolined,
  step, Stepped,
}
use kube.Watcher.Server.{ServerLaws}
use kube.Watcher.Follow.{Reflected, step_trampolined-Reflected}
use kube.Watcher.Rounds.{Delivered, lost_call, step-Delivered}

-- Objects are their metadata, of a single type.
abbrev pub pods : Resource ObjectMeta
pods = record {
  DynamicType = String;
  kind = λ d. "Pod";
  group = λ d. "";
  version = λ d. "v1";
  api_version = λ d. "v1";
  plural = λ d. "pods";
  meta = λ obj. obj;
}

abbrev pub pod : String → ObjectMeta
pod version = record {
  name = some "a";
  generate_name = none;
  namespace = some "b";
  resource_version = some version;
  uid = none;
  deletion_timestamp = none;
  finalizers = none;
  owner_references = none;
}

-- A stream knows its version, and whether its one event is behind it.
abbrev next_item :
    String × Bool → Option (Result ClientErr (WatchEvent ObjectMeta)) × (String × Bool) × Unit {0}
next_item (v, false) = (some (ok (WatchEvent.deleted (pod "2"))), ("2", true), tt)
next_item (v, true) = (none, (v, true), tt)

abbrev server : ApiMode ObjectMeta
server = record {
  World = Unit {0};
  Stream = String × Bool;
  list = λ lp w. (ok (record { resource_version = some "1"; items = pod "1" ∷ [] }), w);
  watch = λ wp v w. (ok (v, false), w);
  next = λ s w. next_item s;
}

abbrev snapshot : String → Contents pods
snapshot v = if v == "1" then listed pods "Pod" (pod "1" ∷ []) else λ key. none

abbrev Shown : ObjectList ObjectMeta → String → Type 0
Shown l v = All (IsNamed pods) l.items × Same pods (snapshot v) (listed pods "Pod" l.items)

pod-Shown : Shown (record { resource_version = some "1"; items = pod "1" ∷ [] }) "1"
pod-Shown = ((refl, tt), λ key. refl)

list-Shown :
    (w w' : Unit {0}) (l : ObjectList ObjectMeta) (v : String)
    → server.list (to_list_params default) w ≡ (ok l, w')
    → l.resource_version ≡ some v
    → Shown l v
list-Shown w w' l v h found =
    let same : record { resource_version = some "1"; items = pod "1" ∷ [] } ≡ l = cc in
    let version : "1" ≡ v = ground arith in rw (← same, ← version) pod-Shown

abbrev Deleted : String × Bool → String × Bool → ObjectMeta → Type 0
Deleted s s' obj =
    IsNamed pods obj
    × (resource_version pods obj ≡ some s'.0)
    × (false ≡ false → Same pods (snapshot s'.0) (after pods "Pod" (deleted obj) (snapshot s.0)))

pod-Deleted : (s : String × Bool) → Deleted s ("2", true) (pod "2")
unfolding resource_version
pod-Deleted s = (refl, refl, λ _ key. ground arith)

next-Deleted :
    (s s' : String × Bool) (w' : Unit {0}) (obj : ObjectMeta)
    → next_item s ≡ (some (ok (WatchEvent.deleted obj)), s', w')
    → Deleted s s' obj
next-Deleted (v, false) s' w' obj h =
    let same : pod "2" ≡ obj = cc in
    let there : ("2", true) ≡ s' = cc in rw (← same, ← there) (pod-Deleted (v, false))
next-Deleted (v, true) s' w' obj h = absurd cc

-- Nothing else comes.
abbrev IsOther : Result ClientErr (WatchEvent ObjectMeta) → Type 0
IsOther (ok (WatchEvent.deleted obj)) = ⊥
IsOther (ok (added obj)) = Unit
IsOther (ok (modified obj)) = Unit
IsOther (ok (bookmark bm)) = Unit
IsOther (ok (WatchEvent.error x)) = Unit
IsOther (err x) = Unit

only_deleted :
    {P : Type 0}
    → (s s' : String × Bool) (w' : Unit {0}) (item : Result ClientErr (WatchEvent ObjectMeta))
    → next_item s ≡ (some item, s', w')
    → IsOther item
    → P
only_deleted (v, false) s' w' (ok (WatchEvent.deleted obj)) h other = absurd other
only_deleted (v, false) s' w' (ok (added obj)) h other = absurd cc
only_deleted (v, false) s' w' (ok (modified obj)) h other = absurd cc
only_deleted (v, false) s' w' (ok (bookmark bm)) h other = absurd cc
only_deleted (v, false) s' w' (ok (WatchEvent.error x)) h other = absurd cc
only_deleted (v, false) s' w' (err x) h other = absurd cc
only_deleted (v, true) s' w' item h other = absurd cc

server-Laws : ServerLaws pods server default "Pod"
server-Laws = record {
  snapshot = snapshot;
  position = λ s. s.0;
  lossy = λ s. false;
  list_law = list-Shown;
  watch_law = λ w w' v s h. ground arith;
  added_law = λ w w' s s' obj h. only_deleted s s' w' _ h tt;
  modified_law = λ w w' s s' obj h. only_deleted s s' w' _ h tt;
  deleted_law = λ w w' s s' obj h. next-Deleted s s' w' obj h;
  bookmark_law = λ w w' s s' bm h. only_deleted s s' w' _ h tt;
  error_law = λ w w' s s' x h _. only_deleted s s' w' _ h tt;
  failure_law = λ w w' s s' x h _. only_deleted s s' w' _ h tt;
}

abbrev writer : Writer pods
writer = new pods "Pod"

step_trampolined-Reflected_example :
    Reflected server-Laws false writer (step_trampolined pods server default empty tt)
unfolding new
step_trampolined-Reflected_example =
    step_trampolined-Reflected server-Laws true empty tt writer tt refl

-- An ended watch is started anew, and then there is an event.
abbrev rank : State (String × Bool) → Unit {0} → ℕ
rank empty w = 0
rank (init_listed v) w = 1
rank (watching v (position, false)) w = 0
rank (watching v (position, true)) w = 2

rank-less :
    (s s' : State (String × Bool)) (w w' : Unit {0})
    → step_trampolined pods server default s w ≡ ok (none, s', w')
    → rank s' w' < rank s w
unfolding step_trampolined resource_version
rank-less empty s' w w' h = absurd cc
rank-less (init_listed v) s' w w' h =
    let there : watching v (v, false) ≡ s' = ground arith in rw (← there) (omega arith)
rank-less (watching v (position, false)) s' w w' h = absurd cc
rank-less (watching v (position, true)) s' w w' h =
    let there : init_listed v ≡ s' = ground arith in rw (← there) (omega arith)

step-Delivered_example :
    Delivered server-Laws
      (lost_call server-Laws 5 false empty tt)
      writer
      (step pods server 5 default empty tt)
unfolding new
step-Delivered_example =
    step-Delivered server-Laws rank rank-less 5 false empty tt writer tt refl (omega arith)

abbrev events : List (Event ObjectMeta)
events = restarted (pod "1" ∷ []) ∷ deleted (pod "2") ∷ []

apply_watcher_event-after_example :
    Wrote pods writer
      (after pods "Pod" (applied (pod "1")) (contents pods writer))
      (apply_watcher_event pods (applied (pod "1")) writer)
unfolding new kube.Watcher.Events.into_iter_touched
apply_watcher_event-after_example =
    apply_watcher_event-after pods (applied (pod "1")) writer (refl, tt)

abbrev key_of : Option String → ObjectRef String
key_of namespace = record {
  dyntype = "Pod";
  name = "a";
  namespace = namespace;
  extra = record { resource_version = none; uid = none };
}

abbrev node : ObjectMeta
node = record (pod "5") { namespace = none }

abbrev written : Writer pods
written = record writer {
  store =
      HashMap.insert
        (record (key_of none) { extra = record { resource_version = some "5"; uid = none } }) node
        writer.store;
  holds_ready_tx = false;
  is_ready = true;
}

get-applied_example : get pods written (key_of (some "b")) ≡ some node
unfolding new apply_watcher_event HashMap.get HashMap.empty kube.Reflector.ObjectRef.from_obj_with
    kube.Reflector.Store.write_event kube.Core.Resource.name_unchecked HashMap.insert
get-applied_example = get-applied pods node writer written (key_of (some "b")) refl refl refl refl
