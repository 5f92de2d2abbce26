-- ===== src/Finalizer.antt =====
-- kube-runtime/src/finalizer.rs: reconciles an object so that it is cleaned up before it is deleted.
pub mod Guarantee
use kube.Prelude.{
  ℕ, suc, Bool, true, false, Option, none, some, List, [], ◌∷◌, String, string_eq, ◌==◌,
  if◌then◌else◌, Result, ok, err, is_some,
}
use kube.Core.Resource.{Resource, finalizers}
use kube.Controller.{Action, await_change}
use kube.Watcher.{ClientErr}

pub data Error (E : Type 0) : Type 0 where
  apply_failed cleanup_failed : E → Error E
  add_finalizer remove_finalizer : ClientErr → Error E
  unnamed_object : Error E

pub data Event (K : Type 0) : Type 0 where
  apply cleanup : K → Event K

-- A JSON pointer by its tokens, and the values and operations of JSON patches that are used here.
pub data Token : Type 0 where
  key : String → Token
  index : ℕ → Token

pub data Value : Type 0 where
  null : Value
  string : String → Value
  array : List String → Value

pub data PatchOperation : Type 0 where
  test add : List Token → Value → PatchOperation
  remove : List Token → PatchOperation

pub record FinalizerState : Type 0 where
  pub finalizer_index : Option ℕ
  pub is_deleting : Bool

-- The index of the first entry with the name, counted from the given one.
unfoldable pub position : String → ℕ → List String → Option ℕ
position finalizer_name i [] = none
position finalizer_name i (fin ∷ fins) =
    if fin == finalizer_name then some i else position finalizer_name (suc i) fins

abbrev pub finalizers_path : List Token
finalizers_path = key "metadata" ∷ key "finalizers" ∷ []

abbrev pub finalizer_path : ℕ → List Token
finalizer_path i = key "metadata" ∷ key "finalizers" ∷ index i ∷ []

abbrev pub end_path : List Token
end_path = key "metadata" ∷ key "finalizers" ∷ key "-" ∷ []

-- The patch that takes the finalizer out, if it is still at its index.
abbrev pub remove_patch : String → ℕ → List PatchOperation
remove_patch finalizer_name i =
    test (finalizer_path i) (string finalizer_name) ∷ remove (finalizer_path i) ∷ []

-- The patch that adds the finalizer, if the others are still the same.
abbrev pub add_patch : String → List String → List PatchOperation
add_patch finalizer_name [] =
    test finalizers_path null ∷ add finalizers_path (array (finalizer_name ∷ [])) ∷ []
add_patch finalizer_name (fin ∷ fins) =
    test finalizers_path (array (fin ∷ fins)) ∷ add end_path (string finalizer_name) ∷ []

abbrev pub map_err :
    {E A B World : Type 0} → (A → Error E) → Result A B × World → Result (Error E) B × World
map_err f (ok b, w) = (ok b, w)
map_err f (err a, w) = (err (f a), w)

-- What follows a patch.
abbrev pub sent :
    {E B World : Type 0}
    → (ClientErr → Error E)
    → B
    → Result ClientErr (Unit {0}) × World
    → Result (Error E) B × World
sent f b (ok _, w) = (ok b, w)
sent f b (err a, w) = (err (f a), w)

module _ {K : Type 0} (r : Resource K) where
  unfoldable pub for_object : K → String → FinalizerState
  for_object obj finalizer_name = record {
    finalizer_index = position finalizer_name 0 (finalizers r obj);
    is_deleting = is_some (r.meta obj).deletion_timestamp;
  }

  -- `patch` is the call of the API server, `reconcile` the user's function; both act on the world.
  module _ {E World : Type 0}
      (patch : String → List PatchOperation → World → Result ClientErr (Unit {0}) × World)
      (reconcile : Event K → World → Result E Action × World) where
    -- The finalizer is removed only if the cleanup has succeeded.
    unfoldable pub finish_cleanup :
        String → String → ℕ → Result E Action × World → Result (Error E) Action × World
    finish_cleanup finalizer_name name i (ok action, w) =
        sent remove_finalizer action (patch name (remove_patch finalizer_name i) w)
    finish_cleanup finalizer_name name i (err e, w) = (err (cleanup_failed e), w)

    unfoldable pub clean_up :
        String → K → ℕ → Option String → World → Result (Error E) Action × World
    unfolding finish_cleanup
    clean_up finalizer_name obj i none w = (err unnamed_object, w)
    clean_up finalizer_name obj i (some name) w =
        finish_cleanup finalizer_name name i (reconcile (cleanup obj) w)

    unfoldable pub add_own : String → K → Option String → World → Result (Error E) Action × World
    add_own finalizer_name obj none w = (err unnamed_object, w)
    add_own finalizer_name obj (some name) w =
        sent add_finalizer await_change (patch name (add_patch finalizer_name (finalizers r obj)) w)

    unfoldable pub run : String → K → Option ℕ → Bool → World → Result (Error E) Action × World
    unfolding clean_up add_own
    run finalizer_name obj (some i) false w = map_err apply_failed (reconcile (apply obj) w)
    run finalizer_name obj (some i) true w = clean_up finalizer_name obj i (r.meta obj).name w
    run finalizer_name obj none false w = add_own finalizer_name obj (r.meta obj).name w
    run finalizer_name obj none true w = (ok await_change, w)

    unfoldable pub finalizer : String → K → World → Result (Error E) Action × World
    unfolding run for_object
    finalizer finalizer_name obj w =
        let state = for_object obj finalizer_name in
        run finalizer_name obj state.finalizer_index state.is_deleting w
