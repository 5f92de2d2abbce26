-- ===== src/Examples/Adapting.antt =====
-- Inputs for the theorems about kube-runtime/src/utils: a restart with two objects, an error and a
-- deletion; objects that come twice; a backoff whose durations grow.
use kube.Prelude.{
  ℕ, suc, ◌≡◌, refl, Bool, true, false, Option, none, some, [], ◌∷◌, Result, ok, err, ready, All,
  string_eq, arith,
}
use kube.Prelude.HashMap
use kube.Core.Resource.{ObjectMeta}
use kube.Watcher.Events.{deleted, restarted}
use kube.Streams.Flatten.{EventFlatten, Flattened, remaining, poll_next, poll_next-remaining}
use kube.Streams.Predicate.{PredicateFilter}
use kube.Streams.Predicate
use kube.Streams.Modify.{EventModify}
use kube.Streams.Passing.{Passed, poll_next-Passed}
use kube.Streams.Passing
use kube.Streams.Backoff.{
  Backoff, StreamBackoff, awake, resting, polls, poll_next as poll_backoff, poll_next-rests,
}
use kube.Streams.ResetTimer.{ResetTimerBackoff}
use kube.Streams.Split.{Peekable, Shared, poll_cases, poll_cases-Shared}
use kube.Examples.Watching.{pods, pod}

abbrev events : EventFlatten ℕ
events = record {
  stream = ready (some (ok (deleted 3))) ∷ ready (some (ok (restarted (4 ∷ 5 ∷ [])))) ∷ [];
  emit_deleted = false;
  queue = [];
}

poll_next-remaining_example : Flattened (remaining events) (poll_next events)
poll_next-remaining_example = poll_next-remaining events

abbrev version_of : ObjectMeta → Option ℕ
version_of obj = some 1

abbrev twice : PredicateFilter pods
twice = record {
  stream = ready (some (ok (pod "1"))) ∷ ready (some (ok (pod "1"))) ∷ ready none ∷ [];
  cache = HashMap.empty;
}

poll_next-Passed_example :
    Passed pods "Pod" version_of
      (Passing.remaining pods "Pod" version_of twice)
      (Predicate.poll_next pods "Pod" version_of twice)
poll_next-Passed_example = poll_next-Passed pods "Pod" version_of twice (refl, (refl, (tt, tt)))

-- The duration is the number of errors so far.
abbrev growing : Backoff ℕ
growing = record { next_backoff = λ n. (some (suc n), suc n); reset = λ n. 0 }

abbrev failing : StreamBackoff ℕ Bool ℕ
failing = record {
  stream = ready (some (err true)) ∷ ready (some (ok 1)) ∷ [];
  backoff = 3;
  state = awake;
}

abbrev failed : StreamBackoff ℕ Bool ℕ
failed = (poll_backoff growing 10 failing).1

poll_next-rests_example :
    All
      (λ answer. answer ≡ resting growing (growing.next_backoff 3).0)
      (polls growing (11 ∷ 13 ∷ []) failed)
unfolding poll_backoff
poll_next-rests_example =
    poll_next-rests growing 10 true failing failed (11 ∷ 13 ∷ []) refl
      (omega arith, (omega arith, tt))

abbrev timer : ResetTimerBackoff ℕ
timer = record { backoff = 3; last_backoff = some 20; reset_duration = 60 }

abbrev growing_events : EventModify ℕ
growing_events = record { stream = ready (some (ok (restarted (4 ∷ 5 ∷ [])))) ∷ []; f = suc }

abbrev mixed : Peekable (Result ℕ ℕ)
mixed = record {
  peeked = none;
  stream = ready (some (err 1)) ∷ ready (some (ok 2)) ∷ ready none ∷ [];
}

poll_cases-Shared_example :
    Shared (true ∷ false ∷ true ∷ []) mixed (poll_cases (true ∷ false ∷ true ∷ []) mixed)
poll_cases-Shared_example = poll_cases-Shared (true ∷ false ∷ true ∷ []) mixed
