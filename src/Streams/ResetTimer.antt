-- ===== src/Streams/ResetTimer.antt =====
-- kube-runtime/src/utils/backoff_reset_timer.rs: forgets the past of a backoff after a quiet time. A
-- duration is a number, and so is an instant.
use kube.Prelude.{
  ◌≡◌, refl, ap, ℕ, ◌+◌, ◌≤◌, Option, none, some, List, [], ◌∷◌, if◌then◌else◌, ltb, arith,
}
use kube.Streams.Backoff.{Backoff}

pub record ResetTimerBackoff (B : Type 0) : Type 0 where
  pub backoff : B
  pub last_backoff : Option ℕ
  pub reset_duration : ℕ

module _ {B : Type 0} (b : Backoff B) where
  unfoldable pub new_with_custom_clock : B → ℕ → ResetTimerBackoff B
  new_with_custom_clock backoff reset_duration = record {
    backoff = backoff;
    last_backoff = none;
    reset_duration = reset_duration;
  }

  abbrev reset_if_quiet : ℕ → ℕ → Option ℕ → B → B
  reset_if_quiet now reset_duration none backoff = backoff
  reset_if_quiet now reset_duration (some last_backoff) backoff =
      if ltb (last_backoff + reset_duration) now then b.reset backoff else backoff

  -- The clock is read twice.
  unfoldable pub next_backoff : ℕ → ℕ → ResetTimerBackoff B → Option ℕ × ResetTimerBackoff B
  next_backoff now later t =
      let (duration, backoff) =
        b.next_backoff (reset_if_quiet now t.reset_duration t.last_backoff t.backoff) in
      (duration, record t { backoff = backoff; last_backoff = some later })

  -- A reset from outside is ignored: `next_backoff` takes care of it.
  unfoldable pub reset : ResetTimerBackoff B → ResetTimerBackoff B
  reset t = t

  -- The durations at a series of instants, and those that the inner backoff would give.
  abbrev pub durations : List ℕ → ResetTimerBackoff B → List (Option ℕ)
  durations [] t = []
  durations (now ∷ times) t =
      (next_backoff now now t).0 ∷ durations times (next_backoff now now t).1

  abbrev pub inner_durations : List ℕ → B → List (Option ℕ)
  inner_durations [] backoff = []
  inner_durations (now ∷ times) backoff =
      (b.next_backoff backoff).0 ∷ inner_durations times (b.next_backoff backoff).1

  -- No instant is further from the one before it than the duration.
  abbrev pub Close : ℕ → ℕ → List ℕ → Type 0
  Close duration last [] = Unit
  Close duration last (now ∷ times) = (now ≤ last + duration) × Close duration now times

  kept_on :
      (now reset_duration last : ℕ) (backoff : B)
      → now ≤ last + reset_duration
      → reset_if_quiet now reset_duration (some last) backoff ≡ backoff
  kept_on now reset_duration last backoff le = ground (arith, le)

  Close-durations :
      (times : List ℕ) (last reset_duration : ℕ) (backoff : B)
      → Close reset_duration last times
      → durations times
          (record { backoff = backoff; last_backoff = some last; reset_duration = reset_duration })
        ≡ inner_durations times backoff
  unfolding next_backoff
  Close-durations [] last reset_duration backoff close = refl
  Close-durations (now ∷ times) last reset_duration backoff close =
      rw (kept_on now reset_duration last backoff close.0) (
        ap (λ l. (b.next_backoff backoff).0 ∷ l)
          (Close-durations times now reset_duration (b.next_backoff backoff).1 close.1))

  -- While the errors come no further apart than the reset duration, the inner backoff is not reset;
  -- an error after a longer time finds it reset, and then the same holds.
  pub durations-reset :
      (last now : ℕ) (times : List ℕ) (t : ResetTimerBackoff B)
      → t.last_backoff ≡ some last
      → Close t.reset_duration now times
      → durations (now ∷ times) t
        ≡ inner_durations
            (now ∷ times)
            (if ltb (last + t.reset_duration) now then b.reset t.backoff else t.backoff)
  unfolding next_backoff
  durations-reset last now times t seen close =
      let backoff = reset_if_quiet now t.reset_duration (some last) t.backoff in
      rw seen (
        ap (λ l. (b.next_backoff backoff).0 ∷ l)
          (Close-durations times now t.reset_duration (b.next_backoff backoff).1 close))
