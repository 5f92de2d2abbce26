-- ===== src/Watcher/Events.antt =====
-- The events of kube-runtime/src/watcher.rs.
use kube.Prelude.{List, [], ◌∷◌, map}

pub data Event {ℓ} (K : Type ℓ) : Type ℓ where
  applied deleted : K → Event K
  restarted : List K → Event K

module _ {ℓ} {K : Type ℓ} where
  -- The objects that were added or modified.
  unfoldable pub into_iter_applied : Event K → List K
  into_iter_applied (applied obj) = obj ∷ []
  into_iter_applied (deleted obj) = []
  into_iter_applied (restarted objs) = objs

  -- The objects that were added, modified or deleted.
  unfoldable pub into_iter_touched : Event K → List K
  into_iter_touched (applied obj) = obj ∷ []
  into_iter_touched (deleted obj) = obj ∷ []
  into_iter_touched (restarted objs) = objs

  -- A mutator of each object. The closure keeps no state of its own.
  unfoldable pub modify : (K → K) → Event K → Event K
  modify f (applied obj) = applied (f obj)
  modify f (deleted obj) = deleted (f obj)
  modify f (restarted objs) = restarted (map f objs)
