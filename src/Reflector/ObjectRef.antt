-- ===== src/Reflector/ObjectRef.antt =====
-- kube-runtime/src/reflector/object_ref.rs: a reference to an object. Two references are equal if
-- type, name and namespace are; what else is known of the object is not compared.
use kube.Prelude.{
  EqLaws, eq_on, pair_eq, option_eq, string_eq, ◌==◌, ◌&&◌, Option, none, some, String, Result, ok,
  ◌>>=◌, if◌then◌else◌,
}
use kube.Core.Discovery.{ApiResource, erase as erase_type}
use kube.Core.Resource.{
  OwnerReference, ObjectReference, Resource, ObjectMeta, MissingField, name_unchecked,
}

pub record Extra : Type 0 where
  pub resource_version : Option String
  pub uid : Option String

pub record ObjectRef (D : Type 0) : Type 0 where
  pub dyntype : D
  pub name : String
  pub namespace : Option String
  pub extra : Extra

module _ {D : Type 0} ⦃e : EqLaws D⦄ where
  instance abbrev pub object_ref_eq : EqLaws (ObjectRef D)
  object_ref_eq =
      eq_on (pair_eq {A = D} {B = String × Option String}) (λ o. (o.dyntype, (o.name, o.namespace)))

abbrev no_extra : Extra
no_extra = record { resource_version = none; uid = none }

abbrev extra_from_obj_meta : ObjectMeta → Extra
extra_from_obj_meta m = record { resource_version = m.resource_version; uid = m.uid }

module _ {K : Type 0} (r : Resource K) where
  unfoldable pub new_with : String → r.DynamicType → ObjectRef r.DynamicType
  new_with name dyntype = record {
    dyntype = dyntype;
    name = name;
    namespace = none;
    extra = no_extra;
  }

  unfoldable pub within : String → ObjectRef r.DynamicType → ObjectRef r.DynamicType
  within namespace o = record o { namespace = some namespace }

  -- Panics on an object without a name.
  unfoldable pub from_obj_with : K → r.DynamicType → Result MissingField (ObjectRef r.DynamicType)
  unfolding name_unchecked
  from_obj_with obj dyntype = do
    name ← name_unchecked r obj
    ok (record {
      dyntype = dyntype;
      name = name;
      namespace = (r.meta obj).namespace;
      extra = extra_from_obj_meta (r.meta obj);
    })

  unfoldable pub from_owner_ref :
      Option String → OwnerReference → r.DynamicType → Option (ObjectRef r.DynamicType)
  from_owner_ref namespace owner dyntype =
      if owner.api_version == r.api_version dyntype && owner.kind == r.kind dyntype
      then some (record {
        dyntype = dyntype;
        name = owner.name;
        namespace = namespace;
        extra = record { resource_version = none; uid = some owner.uid };
      })
      else none

  unfoldable pub into_kind_unchecked : {D : Type 0} → D → ObjectRef r.DynamicType → ObjectRef D
  into_kind_unchecked dt2 o = record {
    dyntype = dt2;
    name = o.name;
    namespace = o.namespace;
    extra = o.extra;
  }

  unfoldable pub into_object_reference : ObjectRef r.DynamicType → ObjectReference
  into_object_reference o = record {
    api_version = some (r.api_version o.dyntype);
    kind = some (r.kind o.dyntype);
    field_path = none;
    name = some o.name;
    namespace = o.namespace;
    resource_version = o.extra.resource_version;
    uid = o.extra.uid;
  }

  -- The type of the reference is replaced by its description.
  unfoldable pub erase : ObjectRef r.DynamicType → ObjectRef ApiResource
  erase o = record {
    dyntype = erase_type r o.dyntype;
    name = o.name;
    namespace = o.namespace;
    extra = o.extra;
  }
