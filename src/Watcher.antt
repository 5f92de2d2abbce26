-- ===== src/Watcher.antt =====
-- kube-runtime/src/watcher.rs: a watch that recovers from errors.
pub mod Events
pub mod Options
pub mod Server
pub mod Follow
pub mod Rounds
use kube.Prelude.{
  ℕ, zero, suc, Bool, true, false, Option, none, some, List, [], ◌∷◌, String, Result, ok, err,
  ◌>>=◌, ltb, nat_beq, length, if◌then◌else◌,
}
use kube.Core.ListParams.{ListParams}
use kube.Core.WatchParams.{WatchParams}
use kube.Core.Resource.{
  Resource, WatchEvent, added, modified, bookmark, ErrorResponse, ObjectList, resource_version,
  Bookmark,
}
use kube.Core.Resource
use Events.{Event, applied, deleted, restarted}
use Options.{Config, to_list_params, to_watch_params}

-- `kube_client::Error`: an answer of the API server, or another failure.
pub data ClientErr : Type 0 where
  api : ErrorResponse → ClientErr
  other : String → ClientErr

pub data Error : Type 0 where
  initial_list_failed watch_start_failed watch_failed : ClientErr → Error
  watch_error : ErrorResponse → Error
  no_resource_version too_many_objects : Error

-- The trait `ApiMode`: what the calls answer in a state of the world, and the world after them. A
-- stream is polled until it has its next item.
pub record ApiMode (K : Type 0) : Type 1 where
  pub World : Type 0
  pub Stream : Type 0
  pub list : ListParams → World → Result ClientErr (ObjectList K) × World
  pub watch : WatchParams → String → World → Result ClientErr Stream × World
  pub next : Stream → World → Option (Result ClientErr (WatchEvent K)) × Stream × World

pub data State (Stream : Type 0) : Type 0 where
  empty : State Stream
  init_listed : String → State Stream
  watching : String → Stream → State Stream

-- What would end the program or the model: an object of the stream without a version, which is
-- unwrapped, and a trampoline that has used up its rounds.
pub data Fault : Type 0 where
  unwrapped_version out_of_rounds : Fault

module _ {K : Type 0} (r : Resource K) (a : ApiMode K) where
  abbrev pub Item : Type 0
  Item = Result Error (Event K)

  -- The event of a step, if there is one, the next state, and the world.
  abbrev pub Stepped : Type 0
  Stepped = Option Item × State a.Stream × a.World

  unfoldable pub on_list : Result ClientErr (ObjectList K) × a.World → Stepped
  on_list (ok l, w) = elim l.resource_version [
    | some resource_version ↦ (some (ok (restarted l.items)), init_listed resource_version, w)
    | none ↦ (some (err no_resource_version), empty, w)
  ]
  on_list (err e, w) = (some (err (initial_list_failed e)), empty, w)

  unfoldable pub on_watch : String → Result ClientErr a.Stream × a.World → Stepped
  on_watch resource_version (ok stream, w) = (none, watching resource_version stream, w)
  on_watch resource_version (err e, w) =
      (some (err (watch_start_failed e)), init_listed resource_version, w)

  -- An event of an object: the object's version is where the watch resumes.
  unfoldable pub on_object : Event K → K → a.Stream → a.World → Result Fault Stepped
  on_object event obj stream w = elim (resource_version r obj) [
    | some version ↦ ok (some (ok event), watching version stream, w)
    | none ↦ err unwrapped_version
  ]

  unfoldable pub on_next :
      String → Option (Result ClientErr (WatchEvent K)) × a.Stream × a.World → Result Fault Stepped
  unfolding on_object
  on_next version (some (ok (added obj)), stream, w) = on_object (applied obj) obj stream w
  on_next version (some (ok (modified obj)), stream, w) = on_object (applied obj) obj stream w
  on_next version (some (ok (WatchEvent.deleted obj)), stream, w) =
      on_object (deleted obj) obj stream w
  on_next version (some (ok (bookmark bm)), stream, w) =
      ok (none, watching bm.metadata.resource_version stream, w)
  on_next version (some (ok (WatchEvent.error e)), stream, w) =
      ok (
        some (err (watch_error e)),
        if nat_beq e.code 410 then empty else watching version stream,
        w,
      )
  on_next version (some (err e), stream, w) =
      ok (some (err (watch_failed e)), watching version stream, w)
  on_next version (none, stream, w) = ok (none, init_listed version, w)

  unfoldable pub step_trampolined : Config → State a.Stream → a.World → Result Fault Stepped
  unfolding on_list on_watch on_next
  step_trampolined wc empty w = ok (on_list (a.list (to_list_params wc) w))
  step_trampolined wc (init_listed version) w =
      ok (on_watch version (a.watch (to_watch_params wc) version w))
  step_trampolined wc (watching version stream) w = on_next version (a.next stream w)

  abbrev pub Answer : Type 0
  Answer = Result Fault (Item × State a.Stream × a.World)

  -- Returns an event, or goes on.
  abbrev pub bounce : (State a.Stream → a.World → Answer) → Stepped → Answer
  bounce again (some item, state, w) = ok (item, state, w)
  bounce again (none, state, w) = again state w

  -- The trampoline, for at most the given number of rounds.
  unfoldable pub step : ℕ → Config → State a.Stream → a.World → Answer
  step zero wc state w = err out_of_rounds
  step (suc rounds) wc state w = do
    stepped ← step_trampolined wc state w
    bounce (step rounds wc) stepped

abbrev pop : {K : Type 0} → List K → Option K
pop [] = none
pop (obj ∷ []) = some obj
pop (obj ∷ obj' ∷ objs) = pop (obj' ∷ objs)

-- `watch_object`: what becomes of an item of the stream of a single object.
unfoldable pub single_object : {K : Type 0} → Result Error (Event K) → Result Error (Option K)
single_object (err e) = err e
single_object (ok (deleted obj)) = ok none
single_object (ok (restarted objs)) =
    if ltb 1 (length objs) then err too_many_objects else ok (pop objs)
single_object (ok (applied obj)) = ok (some obj)
