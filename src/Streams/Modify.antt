-- ===== src/Streams/Modify.antt =====
-- kube-runtime/src/utils/event_modify.rs: changes the objects of the events of a stream. The closure
-- keeps no state of its own.
use kube.Prelude.{
  ◌≡◌, refl, ap, Bool, true, false, Option, none, some, List, [], ◌∷◌, map, Result, ok, err, Poll,
  ready, pending, Stream, poll_stream,
}
use kube.Watcher.{Error}
use kube.Watcher.Events.{Event, applied, deleted, restarted, modify}
use kube.Streams.Flatten.{answers, queued}

pub record EventModify (K : Type 0) : Type 0 where
  pub stream : Stream (Result Error (Event K))
  pub f : K → K

module _ {K : Type 0} where
  unfoldable pub new : Stream (Result Error (Event K)) → (K → K) → EventModify K
  new stream f = record { stream = stream; f = f }

  abbrev pub map_ok :
      (Event K → Event K)
      → Poll (Option (Result Error (Event K)))
      → Poll (Option (Result Error (Event K)))
  map_ok g (ready (some (ok event))) = ready (some (ok (g event)))
  map_ok g (ready (some (err e))) = ready (some (err e))
  map_ok g (ready none) = ready none
  map_ok g pending = pending

  unfoldable pub poll_next : EventModify K → Poll (Option (Result Error (Event K))) × EventModify K
  poll_next me =
      let (answer, stream) = poll_stream me.stream in
      (map_ok (modify me.f) answer, record me { stream = stream })

  -- The function on an answer of flattened events.
  abbrev pub on_object : (K → K) → Poll (Option (Result Error K)) → Poll (Option (Result Error K))
  on_object f (ready (some (ok obj))) = ready (some (ok (f obj)))
  on_object f (ready (some (err e))) = ready (some (err e))
  on_object f (ready none) = ready none
  on_object f pending = pending

  queued-map : (f : K → K) (objs : List K) → queued (map f objs) ≡ map (on_object f) (queued objs)
  queued-map f [] = refl
  queued-map f (obj ∷ objs) = ap (λ l. ready (some (ok (f obj))) ∷ l) (queued-map f objs)

  answers-map_ok :
      (f : K → K) (emit_deleted : Bool) (answer : Poll (Option (Result Error (Event K))))
      → answers emit_deleted (map_ok (modify f) answer)
        ≡ map (on_object f) (answers emit_deleted answer)
  unfolding modify
  answers-map_ok f emit_deleted pending = refl
  answers-map_ok f emit_deleted (ready none) = refl
  answers-map_ok f emit_deleted (ready (some (err e))) = refl
  answers-map_ok f emit_deleted (ready (some (ok (applied obj)))) = refl
  answers-map_ok f true (ready (some (ok (deleted obj)))) = refl
  answers-map_ok f false (ready (some (ok (deleted obj)))) = refl
  answers-map_ok f emit_deleted (ready (some (ok (restarted objs)))) = queued-map f objs

  -- The flattened answers that the adapter's answer to a poll stands for are those that the inner
  -- stream's answer stands for, with the function applied to each object: none is added, dropped or
  -- moved, and the errors pass unchanged.
  pub answers-poll_next :
      (me : EventModify K) (emit_deleted : Bool)
      → answers emit_deleted (poll_next me).0
        ≡ map (on_object me.f) (answers emit_deleted (poll_stream me.stream).0)
  unfolding poll_next
  answers-poll_next me emit_deleted = answers-map_ok me.f emit_deleted (poll_stream me.stream).0
