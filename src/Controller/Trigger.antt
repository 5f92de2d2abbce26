-- ===== src/Controller/Trigger.antt =====
-- The triggers of kube-runtime/src/controller/mod.rs: streams of objects become streams of requests. A
-- stream of this module is the list of its items, an error or a value each.
use kube.Prelude.{Option, none, some, List, [], ◌∷◌, ◌++◌, String, Result, ok, err, ◌>>=◌}
use kube.Core.Resource.{Resource, OwnerReference, MissingField}
use kube.Core.Discovery.{ApiResource}
use kube.Reflector.ObjectRef.{ObjectRef, from_obj_with, from_owner_ref, erase}
use kube.Controller.{ReconcileRequest, object_updated, related_object_updated}

module _ {B E : Type 0} where
  abbrev pub oks : List B → List (Result E B)
  oks [] = []
  oks (b ∷ bs) = ok b ∷ oks bs

module _ {A B E : Type 0} where
  -- `map_ok`, and the items one after the other; a panic of the mapper ends the program.
  unfoldable pub trigger_with :
      (A → Result MissingField (List B))
      → List (Result E A)
      → Result MissingField (List (Result E B))
  trigger_with mapper [] = ok []
  trigger_with mapper (err e ∷ items) = do rest ← trigger_with mapper items; ok (err e ∷ rest)
  trigger_with mapper (ok a ∷ items) = do
    requests ← mapper a
    rest ← trigger_with mapper items
    ok (oks requests ++ rest)

module _ {K : Type 0} (r : Resource K) where
  abbrev pub self_request :
      r.DynamicType → K → Result MissingField (List (ReconcileRequest r.DynamicType))
  self_request dyntype obj = do
    obj_ref ← from_obj_with r obj dyntype
    ok (record { obj_ref = obj_ref; reason = object_updated } ∷ [])

  unfoldable pub trigger_self :
      {E : Type 0}
      → r.DynamicType
      → List (Result E K)
      → Result MissingField (List (Result E (ReconcileRequest r.DynamicType)))
  unfolding trigger_with
  trigger_self dyntype = trigger_with (self_request dyntype)

  abbrev pub because :
      {D : Type 0} → ObjectRef ApiResource → List (ObjectRef D) → List (ReconcileRequest D)
  because watch_ref [] = []
  because watch_ref (o ∷ os) =
      record { obj_ref = o; reason = related_object_updated watch_ref } ∷ because watch_ref os

  abbrev pub other_requests :
      {D : Type 0}
      → (K → List (ObjectRef D))
      → r.DynamicType
      → K
      → Result MissingField (List (ReconcileRequest D))
  other_requests mapper dyntype obj = do
    watch_ref ← from_obj_with r obj dyntype
    ok (because (erase r watch_ref) (mapper obj))

  -- The mapper has no state of its own.
  unfoldable pub trigger_others :
      {E D : Type 0}
      → (K → List (ObjectRef D))
      → r.DynamicType
      → List (Result E K)
      → Result MissingField (List (Result E (ReconcileRequest D)))
  unfolding trigger_with
  trigger_others mapper dyntype = trigger_with (other_requests mapper dyntype)

module _ {K O : Type 0} (owner : Resource O) (child : Resource K) where
  abbrev keep : {A : Type 0} → Option A → List A → List A
  keep (some a) rest = a ∷ rest
  keep none rest = rest

  abbrev pub owner_refs :
      Option String → owner.DynamicType → List OwnerReference → List (ObjectRef owner.DynamicType)
  owner_refs namespace owner_type [] = []
  owner_refs namespace owner_type (o ∷ os) =
      keep (from_owner_ref owner namespace o owner_type) (owner_refs namespace owner_type os)

  abbrev pub flatten : Option (List OwnerReference) → List OwnerReference
  flatten none = []
  flatten (some owners) = owners

  -- The references to the owners that are of the type.
  abbrev pub owners_of : owner.DynamicType → K → List (ObjectRef owner.DynamicType)
  owners_of owner_type obj =
      owner_refs (child.meta obj).namespace owner_type (flatten (child.meta obj).owner_references)

  unfoldable pub trigger_owners :
      {E : Type 0}
      → owner.DynamicType
      → child.DynamicType
      → List (Result E K)
      → Result MissingField (List (Result E (ReconcileRequest owner.DynamicType)))
  unfolding trigger_others
  trigger_owners owner_type child_type = trigger_others child (owners_of owner_type) child_type
