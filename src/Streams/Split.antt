-- ===== src/Streams/Split.antt =====
-- `SplitCase` of kube-runtime/src/utils/mod.rs: two streams, of the values and of the errors of one
-- stream, which they peek at and share.
use kube.Prelude.{
  ◌≡◌, refl, Bool, true, false, Option, none, some, List, [], ◌∷◌, Result, ok, err, ◌>>=◌, Poll,
  ready, pending, Stream, poll_stream, if◌then◌else◌,
}

-- `Peekable`: an answer that was peeked at is kept until it is taken.
pub record Peekable (A : Type 0) : Type 0 where
  pub peeked : Option (Option A)
  pub stream : Stream A

-- The panics of a case: its item is not what it tests for, and there is none after one was seen.
pub data SplitFault : Type 0 where
  not_extracted peeked_is_gone : SplitFault

abbrev extract : {C : Type 0} → Option C → Result SplitFault C
extract (some case) = ok case
extract none = err not_extracted

module _ {A : Type 0} where
  abbrev keep_peeked : Poll (Option A) × Stream A → Poll (Option A) × Peekable A
  keep_peeked (ready item, stream) = (ready item, record { peeked = some item; stream = stream })
  keep_peeked (pending, stream) = (pending, record { peeked = none; stream = stream })

  abbrev peek_kept : Option (Option A) → Stream A → Poll (Option A) × Peekable A
  peek_kept (some item) stream = (ready item, record { peeked = some item; stream = stream })
  peek_kept none stream = keep_peeked (poll_stream stream)

  unfoldable pub peek : Peekable A → Poll (Option A) × Peekable A
  peek p = peek_kept p.peeked p.stream

  -- A poll of the `Peekable` itself: what was peeked at first.
  abbrev next_kept : Option (Option A) → Stream A → Poll (Option A) × Peekable A
  next_kept (some item) stream = (ready item, record { peeked = none; stream = stream })
  next_kept none stream =
      let (answer, rest) = poll_stream stream in (answer, record { peeked = none; stream = rest })

  unfoldable pub next : Peekable A → Poll (Option A) × Peekable A
  next p = next_kept p.peeked p.stream

  abbrev give :
      {C : Type 0}
      → Result SplitFault C
      → Peekable A
      → Result SplitFault (Poll (Option C) × Peekable A)
  give (ok case) p = ok (ready (some case), p)
  give (err fault) p = err fault

  abbrev extracted :
      {C : Type 0}
      → (A → Option C)
      → Poll (Option A) × Peekable A
      → Result SplitFault (Poll (Option C) × Peekable A)
  extracted try_extract (ready (some x), p) = give (extract (try_extract x)) p
  extracted try_extract (ready none, p) = err peeked_is_gone
  extracted try_extract (pending, p) = err peeked_is_gone

  abbrev on_peek :
      {C : Type 0}
      → (A → Bool)
      → (A → Option C)
      → Poll (Option A) × Peekable A
      → Result SplitFault (Poll (Option C) × Peekable A)
  on_peek should_consume try_extract (ready (some x), p) =
      if should_consume x then extracted try_extract (next p) else ok (pending, p)
  on_peek should_consume try_extract (ready none, p) = ok (ready none, p)
  on_peek should_consume try_extract (pending, p) = ok (pending, p)

  unfoldable pub poll_next :
      {C : Type 0}
      → (A → Bool)
      → (A → Option C)
      → Peekable A
      → Result SplitFault (Poll (Option C) × Peekable A)
  unfolding peek next
  poll_next should_consume try_extract p = on_peek should_consume try_extract (peek p)

module _ {A E : Type 0} where
  abbrev is_ok : Result E A → Bool
  is_ok (ok a) = true
  is_ok (err e) = false

  abbrev is_err : Result E A → Bool
  is_err (ok a) = false
  is_err (err e) = true

  abbrev to_ok : Result E A → Option A
  to_ok (ok a) = some a
  to_ok (err e) = none

  abbrev to_err : Result E A → Option E
  to_err (ok a) = none
  to_err (err e) = some e

  -- The two cases of `trystream_split_result`.
  unfoldable pub poll_oks :
      Peekable (Result E A) → Result SplitFault (Poll (Option A) × Peekable (Result E A))
  unfolding poll_next
  poll_oks = poll_next is_ok to_ok

  unfoldable pub poll_errs :
      Peekable (Result E A) → Result SplitFault (Poll (Option E) × Peekable (Result E A))
  unfolding poll_next
  poll_errs = poll_next is_err to_err

  -- What a poll of a case answers, as an answer of the stream that is split.
  abbrev as_ok : Poll (Option A) → Poll (Option (Result E A))
  as_ok (ready (some a)) = ready (some (ok a))
  as_ok (ready none) = ready none
  as_ok pending = pending

  abbrev as_err : Poll (Option E) → Poll (Option (Result E A))
  as_err (ready (some e)) = ready (some (err e))
  as_err (ready none) = ready none
  as_err pending = pending

  -- A poll of one of the cases: `true` is the case of the values.
  abbrev poll_case :
      Bool
      → Peekable (Result E A)
      → Result SplitFault (Poll (Option (Result E A)) × Peekable (Result E A))
  poll_case true p = do (answer, p') ← poll_oks p; ok (as_ok answer, p')
  poll_case false p = do (answer, p') ← poll_errs p; ok (as_err answer, p')

  -- Polls of the cases, in any order.
  abbrev pub poll_cases :
      List Bool
      → Peekable (Result E A)
      → Result SplitFault (Stream (Result E A) × Peekable (Result E A))
  poll_cases [] p = ok ([], p)
  poll_cases (case ∷ cases) p = do
    (answer, p') ← poll_case case p
    (rest, p'') ← poll_cases cases p'
    ok (answer ∷ rest, p'')

  -- The answers that are to come of the stream that is split.
  abbrev upcoming : Option (Option (Result E A)) → Stream (Result E A) → Stream (Result E A)
  upcoming none stream = stream
  upcoming (some item) stream = ready item ∷ stream

  abbrev pub remaining : Peekable (Result E A) → Stream (Result E A)
  remaining p = upcoming p.peeked p.stream

  -- What a case should answer, and what it should leave of the stream: only an item of its own, or a
  -- pending answer, is used up.
  abbrev share : Bool → Stream (Result E A) → Poll (Option (Result E A)) × Stream (Result E A)
  share case [] = (pending, [])
  share case (pending ∷ stream) = (pending, stream)
  share case (ready none ∷ stream) = (ready none, ready none ∷ stream)
  share true (ready (some (ok a)) ∷ stream) = (ready (some (ok a)), stream)
  share true (ready (some (err e)) ∷ stream) = (pending, ready (some (err e)) ∷ stream)
  share false (ready (some (ok a)) ∷ stream) = (pending, ready (some (ok a)) ∷ stream)
  share false (ready (some (err e)) ∷ stream) = (ready (some (err e)), stream)

  abbrev pub shares : List Bool → Stream (Result E A) → Stream (Result E A) × Stream (Result E A)
  shares [] stream = ([], stream)
  shares (case ∷ cases) stream =
      let (answer, stream') = share case stream in
      let (rest, stream'') = shares cases stream' in (answer ∷ rest, stream'')

  abbrev pub Shared :
      List Bool
      → Peekable (Result E A)
      → Result SplitFault (Stream (Result E A) × Peekable (Result E A))
      → Type 0
  Shared cases p answer =
      (answers : Stream (Result E A)) × (p' : Peekable (Result E A)) × (answer ≡ ok (answers, p'))
      × (shares cases (remaining p) ≡ (answers, remaining p'))

  abbrev Taken :
      Bool
      → Peekable (Result E A)
      → Result SplitFault (Poll (Option (Result E A)) × Peekable (Result E A))
      → Type 0
  Taken case p answer =
      (a : Poll (Option (Result E A))) × (p' : Peekable (Result E A)) × (answer ≡ ok (a, p'))
      × (share case (remaining p) ≡ (a, remaining p'))

  poll_kept-Taken :
      (case : Bool) (peeked : Option (Option (Result E A))) (stream : Stream (Result E A))
      → let p : Peekable (Result E A) = record { peeked = peeked; stream = stream } in
        Taken case p (poll_case case p)
  unfolding poll_oks poll_errs poll_next peek next
  poll_kept-Taken true (some (some (ok a))) stream = (_, _, refl, refl)
  poll_kept-Taken true (some (some (err e))) stream = (_, _, refl, refl)
  poll_kept-Taken true (some none) stream = (_, _, refl, refl)
  poll_kept-Taken true none [] = (_, _, refl, refl)
  poll_kept-Taken true none (ready (some (ok a)) ∷ stream) = (_, _, refl, refl)
  poll_kept-Taken true none (ready (some (err e)) ∷ stream) = (_, _, refl, refl)
  poll_kept-Taken true none (ready none ∷ stream) = (_, _, refl, refl)
  poll_kept-Taken true none (pending ∷ stream) = (_, _, refl, refl)
  poll_kept-Taken false (some (some (ok a))) stream = (_, _, refl, refl)
  poll_kept-Taken false (some (some (err e))) stream = (_, _, refl, refl)
  poll_kept-Taken false (some none) stream = (_, _, refl, refl)
  poll_kept-Taken false none [] = (_, _, refl, refl)
  poll_kept-Taken false none (ready (some (ok a)) ∷ stream) = (_, _, refl, refl)
  poll_kept-Taken false none (ready (some (err e)) ∷ stream) = (_, _, refl, refl)
  poll_kept-Taken false none (ready none ∷ stream) = (_, _, refl, refl)
  poll_kept-Taken false none (pending ∷ stream) = (_, _, refl, refl)

  -- However the two cases of a split are polled in turns, no poll panics, and each answers as it
  -- should: with the next item of the shared stream if that is one of its own, pending if that is an
  -- item of the other case, which is left for it, or if the stream is, and with the end where the
  -- stream has ended, which is left as well.
  pub poll_cases-Shared :
      (cases : List Bool) (p : Peekable (Result E A)) → Shared cases p (poll_cases cases p)
  poll_cases-Shared [] p = ([], p, refl, refl)
  poll_cases-Shared (case ∷ cases) p =
      let (answer, p1, done, moved) = poll_kept-Taken case p.peeked p.stream in
      let (rest, p2, done2, moved2) = poll_cases-Shared cases p1 in
      (answer ∷ rest, p2, rw (done, done2) refl, rw (moved, moved2) refl)
