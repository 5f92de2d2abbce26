-- ===== src/Streams/Flatten.antt =====
-- kube-runtime/src/utils/event_flatten.rs: a stream of the objects of events.
use kube.Prelude.{
  ◌≡◌, refl, Bool, true, false, Option, none, some, List, [], ◌∷◌, ◌++◌, Result, ok, err, Poll,
  ready, pending, Stream, poll_stream, if◌then◌else◌,
}
use kube.Watcher.{Error}
use kube.Watcher.Events.{Event, applied, deleted, restarted}

pub record EventFlatten (K : Type 0) : Type 0 where
  pub stream : Stream (Result Error (Event K))
  pub emit_deleted : Bool
  pub queue : List K

module _ {K : Type 0} where
  unfoldable pub new : Stream (Result Error (Event K)) → Bool → EventFlatten K
  new stream emit_deleted = record { stream = stream; emit_deleted = emit_deleted; queue = [] }

  abbrev left : Bool → Stream (Result Error (Event K)) → List K → EventFlatten K
  left emit_deleted stream queue = record {
    stream = stream;
    emit_deleted = emit_deleted;
    queue = queue;
  }

  -- The loop, over the answers of the inner stream.
  unfoldable pub poll_loop :
      Bool
      → List K
      → Stream (Result Error (Event K))
      → Poll (Option (Result Error K)) × EventFlatten K
  poll_loop emit_deleted (item ∷ queue) stream =
      (ready (some (ok item)), left emit_deleted stream queue)
  poll_loop emit_deleted [] [] = (pending, left emit_deleted [] [])
  poll_loop emit_deleted [] (pending ∷ stream) = (pending, left emit_deleted stream [])
  poll_loop emit_deleted [] (ready none ∷ stream) = (ready none, left emit_deleted stream [])
  poll_loop emit_deleted [] (ready (some (err e)) ∷ stream) =
      (ready (some (err e)), left emit_deleted stream [])
  poll_loop emit_deleted [] (ready (some (ok (applied obj))) ∷ stream) =
      (ready (some (ok obj)), left emit_deleted stream [])
  poll_loop emit_deleted [] (ready (some (ok (deleted obj))) ∷ stream) =
      let rest = poll_loop emit_deleted [] stream in
      if emit_deleted then (ready (some (ok obj)), left emit_deleted stream []) else rest
  poll_loop emit_deleted [] (ready (some (ok (restarted objs))) ∷ stream) =
      poll_loop emit_deleted objs stream

  unfoldable pub poll_next : EventFlatten K → Poll (Option (Result Error K)) × EventFlatten K
  unfolding poll_loop
  poll_next me = poll_loop me.emit_deleted me.queue me.stream

  abbrev pub queued : List K → Stream (Result Error K)
  queued [] = []
  queued (obj ∷ objs) = ready (some (ok obj)) ∷ queued objs

  -- The answers that an answer of the inner stream stands for.
  abbrev pub answers : Bool → Poll (Option (Result Error (Event K))) → Stream (Result Error K)
  answers emit_deleted pending = pending ∷ []
  answers emit_deleted (ready none) = ready none ∷ []
  answers emit_deleted (ready (some (err e))) = ready (some (err e)) ∷ []
  answers emit_deleted (ready (some (ok (applied obj)))) = ready (some (ok obj)) ∷ []
  answers true (ready (some (ok (deleted obj)))) = ready (some (ok obj)) ∷ []
  answers false (ready (some (ok (deleted obj)))) = []
  answers emit_deleted (ready (some (ok (restarted objs)))) = queued objs

  abbrev upcoming : Bool → Stream (Result Error (Event K)) → Stream (Result Error K)
  upcoming emit_deleted [] = []
  upcoming emit_deleted (answer ∷ stream) =
      answers emit_deleted answer ++ upcoming emit_deleted stream

  -- All answers that are to come: the queue, and those that the inner stream stands for.
  abbrev pub remaining : EventFlatten K → Stream (Result Error K)
  remaining me = queued me.queue ++ upcoming me.emit_deleted me.stream

  abbrev pub Flattened :
      Stream (Result Error K) → Poll (Option (Result Error K)) × EventFlatten K → Type 0
  Flattened before (answer, me) = poll_stream before ≡ (answer, remaining me)

  poll_loop-Flattened :
      (emit_deleted : Bool) (queue : List K) (stream : Stream (Result Error (Event K)))
      → Flattened
          (queued queue ++ upcoming emit_deleted stream)
          (poll_loop emit_deleted queue stream)
  unfolding poll_loop
  poll_loop-Flattened emit_deleted (item ∷ queue) stream = refl
  poll_loop-Flattened emit_deleted [] [] = refl
  poll_loop-Flattened emit_deleted [] (pending ∷ stream) = refl
  poll_loop-Flattened emit_deleted [] (ready none ∷ stream) = refl
  poll_loop-Flattened emit_deleted [] (ready (some (err e)) ∷ stream) = refl
  poll_loop-Flattened emit_deleted [] (ready (some (ok (applied obj))) ∷ stream) = refl
  poll_loop-Flattened true [] (ready (some (ok (deleted obj))) ∷ stream) = refl
  poll_loop-Flattened false [] (ready (some (ok (deleted obj))) ∷ stream) =
      poll_loop-Flattened false [] stream
  poll_loop-Flattened emit_deleted [] (ready (some (ok (restarted objs))) ∷ stream) =
      poll_loop-Flattened emit_deleted objs stream

  -- A poll of the adapter answers as the stream does that has, one after the other, the objects that
  -- are left of the last restart, and for each answer of the inner stream: itself if it is pending, the
  -- end or an error, the object of an applied one, the objects of a restart in their order, and
  -- the object of a deleted one if these are wanted, and else no answer at all. What the adapter then
  -- still stands for is the rest of that stream.
  pub poll_next-remaining : (me : EventFlatten K) → Flattened (remaining me) (poll_next me)
  unfolding poll_next
  poll_next-remaining me = poll_loop-Flattened me.emit_deleted me.queue me.stream
