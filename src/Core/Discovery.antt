-- ===== src/Core/Discovery.antt =====
-- kube-core/src/discovery.rs: descriptions of API resources.
use kube.Prelude.{Bool, false, ◌||◌, List, [], ◌∷◌, String, ◌==◌, string_eq}
use kube.Core.Resource.{Resource}
use kube.Core.Gvk.{GroupVersionKind, gvk_api_version}

pub record ApiResource : Type 0 where
  pub group : String
  pub version : String
  pub api_version : String
  pub kind : String
  pub plural : String

-- The description of a type.
unfoldable pub erase : {K : Type 0} → (r : Resource K) → r.DynamicType → ApiResource
erase r dt = record {
  group = r.group dt;
  version = r.version dt;
  api_version = r.api_version dt;
  kind = r.kind dt;
  plural = r.plural dt;
}

unfoldable pub from_gvk_with_plural : GroupVersionKind → String → ApiResource
from_gvk_with_plural gvk plural = record {
  group = gvk.group;
  version = gvk.version;
  api_version = gvk_api_version gvk;
  kind = gvk.kind;
  plural = plural;
}

pub data Scope : Type 0 where
  cluster namespaced : Scope

-- The scope of a resource, its subresources with their capabilities, and its operations.
mutual
  pub data ApiCapabilities : Type 0 where
    capabilities : Scope → Subresources → List String → ApiCapabilities

  pub data Subresources : Type 0 where
    nil : Subresources
    cons : ApiResource → ApiCapabilities → Subresources → Subresources

abbrev pub operations : ApiCapabilities → List String
operations (capabilities scope subresources ops) = ops

abbrev any_equal : String → List String → Bool
any_equal operation [] = false
any_equal operation (op ∷ ops) = (op == operation) || any_equal operation ops

unfoldable pub supports_operation : String → ApiCapabilities → Bool
supports_operation operation c = any_equal operation (operations c)
