-- ===== src/Wait.antt =====
-- kube-runtime/src/wait.rs: waiting until an object is as it should be. What is awaited is the stream
-- of a watcher of the one object, as its polls will answer; its items pass through `single_object`.
pub mod Conditions
pub mod Waiting
use kube.Prelude.{
  ◌>>=◌, Option, none, some, List, [], ◌∷◌, String, Result, ok, err, Poll, ready, pending, Stream,
  if◌then◌else◌,
}
use kube.Core.Resource.{Resource}
use kube.Watcher.{ClientErr, single_object}
use kube.Watcher
use kube.Watcher.Events.{Event}
use Conditions.{Condition, is_deleted}

pub data Error : Type 0 where
  probe_failed : Watcher.Error → Error

-- The panic of a stream that has come to its end.
pub data Terminated : Type 0 where
  stream_terminated : Terminated

abbrev pub Awaited : Type 0 → Type 0
Awaited K = Result Terminated (Poll (Result Error (Option K)))

-- Updates are skipped until the condition is satisfied.
abbrev pub skip_while :
    {K : Type 0} → Condition K → Result Watcher.Error (Option K) → Awaited K → Awaited K
skip_while cond (ok obj) later = if cond obj then ok (ready (ok obj)) else later
skip_while cond (err e) later = ok (ready (err (probe_failed e)))

unfoldable pub await_condition :
    {K : Type 0} → Condition K → Stream (Result Watcher.Error (Event K)) → Awaited K
await_condition cond [] = ok pending
await_condition cond (pending ∷ rest) = await_condition cond rest
await_condition cond (ready none ∷ rest) = err stream_terminated
await_condition cond (ready (some item) ∷ rest) =
    let later = await_condition cond rest in skip_while cond (single_object item) later

pub data DeleteError : Type 0 where
  no_uid : DeleteError
  delete : ClientErr → DeleteError
  await : Error → DeleteError

-- What a call of delete answers: the object that is being deleted, or the status of its deletion with
-- the identifier in its details.
pub data Deletion (K : Type 0) : Type 0 where
  object : K → Deletion K
  status : Option String → Deletion K

abbrev pub deleted_uid : {K : Type 0} → Resource K → Deletion K → Option String
deleted_uid r (object obj) = (r.meta obj).uid
deleted_uid r (status details) = details

abbrev done : {K : Type 0} → Poll (Result Error (Option K)) → Poll (Result DeleteError (Unit {0}))
done pending = pending
done (ready (ok obj)) = ready (ok tt)
done (ready (err e)) = ready (err (await e))

module _ {K : Type 0} (r : Resource K) where
  abbrev pub finalized :
      Option String
      → Stream (Result Watcher.Error (Event K))
      → Result Terminated (Poll (Result DeleteError (Unit {0})))
  finalized none stream = ok (ready (err no_uid))
  finalized (some uid) stream = await_condition (is_deleted r uid) stream >>= λ p. ok (done p)

  unfoldable pub delete_and_finalize :
      Result ClientErr (Deletion K)
      → Stream (Result Watcher.Error (Event K))
      → Result Terminated (Poll (Result DeleteError (Unit {0})))
  unfolding await_condition
  delete_and_finalize (err e) stream = ok (ready (err (delete e)))
  delete_and_finalize (ok answer) stream = finalized (deleted_uid r answer) stream
