-- ===== src/Finalizer/Guarantee.antt =====
-- What `finalizer` of kube-runtime/src/finalizer.rs calls, and in which order.
use kube.Prelude.{
  ◌≡◌, refl, ℕ, zero, suc, ◌+◌, Bool, true, false, Option, none, some, List, [], ◌∷◌, ◌++◌, String,
  string_eq, ◌==◌, if◌then◌else◌, Result, ok, err, is_some, arith, ◌⊎◌, inl, inr, Option-cases,
  Bool-cases,
}
use kube.Core.Resource.{Resource, finalizers}
use kube.Watcher.{ClientErr}
use kube.Controller.{Action, await_change}
use kube.Finalizer.{
  Error, unnamed_object, apply_failed, add_finalizer, remove_finalizer, map_err, sent, Event, apply,
  cleanup, PatchOperation, remove_patch, add_patch, position, for_object, finish_cleanup, clean_up,
  add_own, run, finalizer,
}

-- A call of the server or of the user's function, and whether it succeeded.
pub data Call (K : Type 0) : Type 0 where
  reconciled : Event K → Bool → Call K
  patched : String → List PatchOperation → Bool → Call K

abbrev pub is_ok : {A B : Type 0} → Result A B → Bool
is_ok (ok b) = true
is_ok (err a) = false

-- The element at an index.
abbrev pub get_elem? : {A : Type 0} → List A → ℕ → Option A
get_elem? [] i = none
get_elem? (x ∷ xs) zero = some x
get_elem? (x ∷ xs) (suc i) = get_elem? xs i

-- Some entry of the list is the name.
abbrev pub contains : String → List String → Bool
contains name [] = false
contains name (fin ∷ fins) = if fin == name then true else contains name fins

-- The entry at the index is the name.
abbrev pub Present : String → List String → ℕ → Type 0
Present name fins i = (fin : String) × (get_elem? fins i ≡ some fin) × ((fin == name) ≡ true)

position-contains :
    (name : String) (i : ℕ) (fins : List String)
    → position name i fins ≡ none
    → contains name fins ≡ false
unfolding position
position-contains name i [] h = refl
position-contains name i (x ∷ xs) h = ground (arith, position-contains name (suc i) xs)

position-Present :
    (name : String) (i j : ℕ) (fins : List String)
    → position name i fins ≡ some j
    → (k : ℕ) × (j ≡ i + k) × Present name fins k
unfolding position
position-Present name i j [] h = absurd cc
position-Present name i j (x ∷ xs) h = elim (Bool-cases (x == name)) [
  | inl here ↦ (0, ground arith, (x, refl, here))
  | inr there ↦
      let (k, same, found) = position-Present name (suc i) j xs (ground arith) in
      (suc k, omega (arith, same), found)
]

module _ {K : Type 0} (r : Resource K) {E World : Type 0}
    (patch : String → List PatchOperation → World → Result ClientErr (Unit {0}) × World)
    (reconcile : Event K → World → Result E Action × World) where
  -- The world that remembers its calls.
  abbrev pub Logged : Type 0
  Logged = World × List (Call K)

  abbrev log :
      {A B : Type 0} → (Bool → Call K) → List (Call K) → Result A B × World → Result A B × Logged
  log call calls (answer, w) = (answer, (w, calls ++ (call (is_ok answer) ∷ [])))

  abbrev pub log_patch :
      String → List PatchOperation → Logged → Result ClientErr (Unit {0}) × Logged
  log_patch name ops (w, calls) = log (patched name ops) calls (patch name ops w)

  abbrev pub log_reconcile : Event K → Logged → Result E Action × Logged
  log_reconcile event (w, calls) = log (reconciled event) calls (reconcile event w)

  module _ (finalizer_name : String) (obj : K) where
    abbrev pub is_deleting : Bool
    is_deleting = is_some (r.meta obj).deletion_timestamp

    abbrev Own : Type 0
    Own = (i : ℕ) × Present finalizer_name (finalizers r obj) i

    -- The operations take out our own finalizer, at a place where the object has it.
    abbrev Removes : List PatchOperation → Type 0
    Removes ops =
        (i : ℕ) × (ops ≡ remove_patch finalizer_name i)
        × Present finalizer_name (finalizers r obj) i

    -- The calls that are allowed, and when.
    abbrev pub Allowed : List (Call K) → Result (Error E) Action → Type 0
    Allowed [] answer =
        ((answer ≡ ok await_change)
          × (contains finalizer_name (finalizers r obj) ≡ false)
          × (is_deleting ≡ true))
        ⊎ ((answer ≡ err unnamed_object) × ((r.meta obj).name ≡ none))
    Allowed (reconciled (apply o) success ∷ []) answer =
        (o ≡ obj) × Own × (is_deleting ≡ false) × (success ≡ is_ok answer)
    Allowed (reconciled (cleanup o) false ∷ []) answer =
        (o ≡ obj) × Own × (is_deleting ≡ true) × (is_ok answer ≡ false)
    Allowed (reconciled (cleanup o) true ∷ patched name ops success ∷ []) answer =
        (o ≡ obj)
        × (is_deleting ≡ true)
        × ((r.meta obj).name ≡ some name)
        × Removes ops
        × (success ≡ is_ok answer)
    Allowed (patched name ops success ∷ []) answer =
        (contains finalizer_name (finalizers r obj) ≡ false)
        × (is_deleting ≡ false)
        × ((r.meta obj).name ≡ some name)
        × (ops ≡ add_patch finalizer_name (finalizers r obj))
        × (success ≡ is_ok answer)
    Allowed calls answer = ⊥

    -- What a run with the log left.
    abbrev pub Checked : Result (Error E) Action × Logged → Type 0
    Checked (answer, (w, calls)) = Allowed calls answer

    applied :
        (answer : Result E Action × World)
        → Own
        → is_deleting ≡ false
        → Checked (map_err apply_failed (log (reconciled (apply obj)) [] answer))
    applied (ok action, w) own alive = (refl, own, alive, refl)
    applied (err e, w) own alive = (refl, own, alive, refl)

    added :
        (name : String) (answer : Result ClientErr (Unit {0}) × World)
        → (contains finalizer_name (finalizers r obj) ≡ false)
        → is_deleting ≡ false
        → (r.meta obj).name ≡ some name
        → Checked (
            sent add_finalizer await_change
              (log (patched name (add_patch finalizer_name (finalizers r obj))) [] answer))
    added name (ok _, w) absent alive named = (absent, alive, named, refl, refl)
    added name (err e, w) absent alive named = (absent, alive, named, refl, refl)

    removed :
        (name : String) (i : ℕ) (action : Action) (answer : Result ClientErr (Unit {0}) × World)
        → Present finalizer_name (finalizers r obj) i
        → is_deleting ≡ true
        → (r.meta obj).name ≡ some name
        → Checked (
            sent remove_finalizer action (
              log
                (patched name (remove_patch finalizer_name i))
                (reconciled (cleanup obj) true ∷ [])
                answer))
    removed name i action (ok _, w) own dying named = (refl, dying, named, (i, refl, own), refl)
    removed name i action (err e, w) own dying named = (refl, dying, named, (i, refl, own), refl)

    cleaned :
        (name : String) (i : ℕ) (answer : Result E Action × World)
        → Present finalizer_name (finalizers r obj) i
        → is_deleting ≡ true
        → (r.meta obj).name ≡ some name
        → Checked (
            finish_cleanup r log_patch log_reconcile finalizer_name name i
              (log (reconciled (cleanup obj)) [] answer))
    unfolding finish_cleanup
    cleaned name i (ok action, w) own dying named =
        removed name i action (patch name (remove_patch finalizer_name i) w) own dying named
    cleaned name i (err e, w) own dying named = (refl, (i, own), dying, refl)

    run-Checked :
        (index : Option ℕ) (deleting : Bool) (w : World)
        → position finalizer_name 0 (finalizers r obj) ≡ index
        → is_deleting ≡ deleting
        → Checked (run r log_patch log_reconcile finalizer_name obj index deleting (w, []))
    unfolding run clean_up add_own finish_cleanup
    run-Checked (some i) false w found alive =
        let (k, same, own) = position-Present finalizer_name 0 i (finalizers r obj) found in
        applied (reconcile (apply obj) w) (k, own) alive
    run-Checked (some i) true w found dying = elim (Option-cases (r.meta obj).name) [
      | inl unnamed ↦ rw unnamed (inr (refl, unnamed))
      | inr (name, named) ↦
          let (k, same, own) = position-Present finalizer_name 0 i (finalizers r obj) found in
          let here : i ≡ k = omega (arith, same) in
          rw named (cleaned name i (reconcile (cleanup obj) w) (rw here own) dying named)
    ]
    run-Checked none false w missing alive = elim (Option-cases (r.meta obj).name) [
      | inl unnamed ↦ rw unnamed (inr (refl, unnamed))
      | inr (name, named) ↦ rw named (
          added name (patch name (add_patch finalizer_name (finalizers r obj)) w)
            (position-contains finalizer_name 0 _ missing) alive named)
    ]
    run-Checked none true w missing dying =
        inl (refl, position-contains finalizer_name 0 _ missing, dying)

    -- Whatever the server and the user's function answer: `apply` is called only on an object that
    -- has the finalizer and is not being deleted, and alone; `cleanup` is called only on an object
    -- that has it and is being deleted; a patch removes the finalizer only right after a cleanup that
    -- succeeded, and names a place where the object has it; a patch adds the finalizer only to an
    -- object without it that is not being deleted; and the answer is a success exactly if the last
    -- call was one.
    pub finalizer-Allowed :
        (w : World) → Checked (finalizer r log_patch log_reconcile finalizer_name obj (w, []))
    unfolding finalizer for_object
    finalizer-Allowed w = run-Checked _ _ w refl refl
