-- ===== src/Core/Resource.antt =====
-- kube-core/src/resource.rs, watch.rs and error.rs: objects through their metadata, and what the
-- API server sends.
use kube.Prelude.{
  Bool, true, ℕ, Option, none, some, List, [], String, Result, ok, err, ◌+++◌, is_empty_text,
  if◌then◌else◌,
}

-- The owner of an object, a type of k8s-openapi.
pub record OwnerReference : Type 0 where
  pub api_version : String
  pub kind : String
  pub name : String
  pub uid : String
  pub controller : Option Bool
  pub block_owner_deletion : Option Bool

-- A reference in an event, a type of k8s-openapi.
pub record ObjectReference : Type 0 where
  pub api_version : Option String
  pub kind : Option String
  pub field_path : Option String
  pub name : Option String
  pub namespace : Option String
  pub resource_version : Option String
  pub uid : Option String

-- The fields of `ObjectMeta`, a type of k8s-openapi, that the modelled code reads.
pub record ObjectMeta : Type 0 where
  pub name : Option String
  pub generate_name : Option String
  pub namespace : Option String
  pub resource_version : Option String
  pub uid : Option String
  pub deletion_timestamp : Option ℕ
  pub finalizers : Option (List String)
  pub owner_references : Option (List OwnerReference)

-- The trait `Resource` of an object type.
pub record Resource (K : Type 0) : Type 1 where
  pub DynamicType : Type 0
  pub kind : DynamicType → String
  pub group : DynamicType → String
  pub version : DynamicType → String
  pub api_version : DynamicType → String
  pub plural : DynamicType → String
  pub meta : K → ObjectMeta

-- The panics of the trait's extension.
pub data MissingField : Type 0 where
  missing_name missing_resource_version : MissingField

module _ {K : Type 0} (r : Resource K) where
  abbrev name_of : Option String → Result MissingField String
  name_of (some name) = ok name
  name_of none = err missing_name

  -- `ResourceExt::name_unchecked`.
  unfoldable pub name_unchecked : K → Result MissingField String
  name_unchecked obj = name_of (r.meta obj).name

  abbrev name_or : Option String → Option String → String
  name_or (some name) generate_name = name
  name_or none (some name) = name
  name_or none none = ""

  -- `ResourceExt::name_any`.
  unfoldable pub name_any : K → String
  name_any obj = name_or (r.meta obj).name (r.meta obj).generate_name

  unfoldable pub resource_version : K → Option String
  resource_version obj = (r.meta obj).resource_version

  abbrev list_or_empty : Option (List String) → List String
  list_or_empty (some l) = l
  list_or_empty none = []

  -- `ResourceExt::finalizers`.
  unfoldable pub finalizers : K → List String
  finalizers obj = list_or_empty (r.meta obj).finalizers

  abbrev namespaces : Option String → String
  namespaces (some ns) = "namespaces/" +++ ns +++ "/"
  namespaces none = ""

  unfoldable pub url_path : r.DynamicType → Option String → String
  url_path dt namespace =
      "/"
      +++ (if is_empty_text (r.group dt) then "api" else "apis")
      +++ "/"
      +++ r.api_version dt
      +++ "/"
      +++ namespaces namespace
      +++ r.plural dt

  unfoldable pub object_ref : K → r.DynamicType → ObjectReference
  object_ref obj dt = record {
    api_version = some (r.api_version dt);
    kind = some (r.kind dt);
    field_path = none;
    name = (r.meta obj).name;
    namespace = (r.meta obj).namespace;
    resource_version = none;
    uid = (r.meta obj).uid;
  }

  abbrev owner_of : Option String → Option String → r.DynamicType → Option OwnerReference
  owner_of (some name) (some uid) dt = some (record {
    api_version = r.api_version dt;
    kind = r.kind dt;
    name = name;
    uid = uid;
    controller = some true;
    block_owner_deletion = none;
  })
  owner_of (some name) none dt = none
  owner_of none uid dt = none

  unfoldable pub controller_owner_ref : K → r.DynamicType → Option OwnerReference
  controller_owner_ref obj dt = owner_of (r.meta obj).name (r.meta obj).uid dt

-- error.rs.
pub record ErrorResponse : Type 0 where
  pub status : String
  pub message : String
  pub reason : String
  pub code : ℕ

-- watch.rs.
pub record BookmarkMeta : Type 0 where
  pub resource_version : String

pub record TypeMeta : Type 0 where
  pub api_version : String
  pub kind : String

pub record Bookmark : Type 0 where
  pub types : TypeMeta
  pub metadata : BookmarkMeta

pub data WatchEvent (K : Type 0) : Type 0 where
  added modified deleted : K → WatchEvent K
  bookmark : Bookmark → WatchEvent K
  error : ErrorResponse → WatchEvent K

-- `ObjectList`: the version of its metadata and its items.
pub record ObjectList (K : Type 0) : Type 0 where
  pub resource_version : Option String
  pub items : List K
