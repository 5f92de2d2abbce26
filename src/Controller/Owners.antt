-- ===== src/Controller/Owners.antt =====
-- What the trigger for owners of kube-runtime/src/controller/mod.rs asks for.
use kube.Prelude.{
  ◌≡◌, refl, ap, Bool, ◌&&◌, none, some, List, [], ◌∷◌, ◌++◌, Result, ok, err, All, ◌==◌, string_eq,
  if◌then◌else◌, inl, inr, Bool-cases,
}
use kube.Core.Resource.{Resource, OwnerReference, MissingField}
use kube.Reflector.ObjectRef.{from_owner_ref, erase}
use kube.Reflector.Store.Contents.{IsNamed, ref, from_obj_with-ref}
use kube.Controller.{ReconcileRequest, related_object_updated}
use kube.Controller.Trigger.{
  oks, trigger_with, because, other_requests, trigger_others, owner_refs, owners_of, flatten,
  trigger_owners,
}

module _ {A E : Type 0} where
  abbrev pub Every : (A → Type 0) → Result E A → Type 0
  Every P (err e) = Unit
  Every P (ok a) = P a

module _ {A B E : Type 0} where
  -- What a mapper that does not panic gives for an item.
  abbrev pub mapped : (A → List B) → List (Result E A) → List (Result E B)
  mapped f [] = []
  mapped f (err e ∷ items) = err e ∷ mapped f items
  mapped f (ok a ∷ items) = oks (f a) ++ mapped f items

  pub trigger_with-mapped :
      (mapper : A → Result MissingField (List B)) (f : A → List B) (P : A → Type 0)
      → ((a : A) → P a → mapper a ≡ ok (f a))
      → (items : List (Result E A)) → All (Every P) items
      → trigger_with mapper items ≡ ok (mapped f items)
  unfolding trigger_with
  trigger_with-mapped mapper f P h [] good = refl
  trigger_with-mapped mapper f P h (err e ∷ items) good =
      rw (trigger_with-mapped mapper f P h items good.1) refl
  trigger_with-mapped mapper f P h (ok a ∷ items) good =
      rw (h a good.0, trigger_with-mapped mapper f P h items good.1) refl

module _ {K O : Type 0} (owner : Resource O) (child : Resource K) where
  -- The request for an owner: its name in the object's namespace, because of the object.
  abbrev pub owner_request :
      owner.DynamicType
      → child.DynamicType
      → K
      → OwnerReference
      → ReconcileRequest owner.DynamicType
  owner_request owner_type child_type obj o = record {
    obj_ref = record {
      dyntype = owner_type;
      name = o.name;
      namespace = (child.meta obj).namespace;
      extra = record { resource_version = none; uid = some o.uid };
    };
    reason = related_object_updated (erase child (ref child child_type obj));
  }

  abbrev pub is_of_type : owner.DynamicType → OwnerReference → Bool
  is_of_type owner_type o =
      o.api_version == owner.api_version owner_type && o.kind == owner.kind owner_type

  -- A request for each owner of the type, in their order.
  abbrev pub requests_for :
      owner.DynamicType
      → child.DynamicType
      → K
      → List OwnerReference
      → List (ReconcileRequest owner.DynamicType)
  requests_for owner_type child_type obj [] = []
  requests_for owner_type child_type obj (o ∷ os) =
      let rest = requests_for owner_type child_type obj os in
      if is_of_type owner_type o then owner_request owner_type child_type obj o ∷ rest else rest

  because-owner_refs :
      (owner_type : owner.DynamicType) (child_type : child.DynamicType) (obj : K)
      (os : List OwnerReference)
      → because child
          (erase child (ref child child_type obj))
          (owner_refs owner child (child.meta obj).namespace owner_type os)
        ≡ requests_for owner_type child_type obj os
  unfolding from_owner_ref
  because-owner_refs owner_type child_type obj [] = refl
  because-owner_refs owner_type child_type obj (o ∷ os) =
      elim (Bool-cases (is_of_type owner_type o)) [
        | inl same ↦ rw same (
            ap (λ l. owner_request owner_type child_type obj o ∷ l)
              (because-owner_refs owner_type child_type obj os))
        | inr other ↦ rw other (because-owner_refs owner_type child_type obj os)
      ]

  -- On objects with names, the trigger asks for exactly the owners of the wanted type, in the order of
  -- the objects and of their owner references, each in the object's namespace and because of the
  -- object; errors stay in their places.
  pub trigger_owners-mapped :
      {E : Type 0} (owner_type : owner.DynamicType) (child_type : child.DynamicType)
      (items : List (Result E K))
      → All (Every (IsNamed child)) items
      → trigger_owners owner child owner_type child_type items
        ≡ ok (
            mapped
              (λ obj.
                requests_for owner_type child_type obj
                  (flatten owner child (child.meta obj).owner_references))
              items)
  unfolding trigger_owners trigger_others
  trigger_owners-mapped owner_type child_type items named =
      trigger_with-mapped (other_requests child (owners_of owner child owner_type) child_type) _
        (IsNamed child)
        (λ obj name.
          rw (from_obj_with-ref child obj child_type name)
            (ap ok (because-owner_refs owner_type child_type obj _)))
        items named
