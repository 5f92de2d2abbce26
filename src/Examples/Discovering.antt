-- ===== src/Examples/Discovering.antt =====
-- Inputs for the theorems about kube-client/src/discovery: a group with two versions, a list with a
-- resource and its subresource.
use kube.Prelude.{◌≡◌, refl, true, none, List, [], ◌∷◌, String, Result, ok, err}
use kube.Watcher.{ClientErr, other}
use kube.Core.Discovery.{capabilities, nil, namespaced}
use kube.Discovery.{
  ServedResource, ServedList, GroupVersionData, new, discovery, missing_resource,
  parse_apicapabilities,
}
use kube.Discovery.Totality.{group_version_of, expected, api_resources, new-Total}
use kube.Discovery.ApiGroup.{GroupVersionForDiscovery, ServedGroup, ApiGroup, query_apis}
use kube.Discovery.Latest.{Answered, query_apis-Answered}
use kube.Discovery.Stability.{
  Described, resources_by_stability, of_kind, MostStable, all_resources,
  resources_by_stability-Stable,
}

abbrev served : String → ServedResource
served name = record {
  name = name;
  kind = "Pod";
  group = none;
  version = none;
  is_namespaced = true;
  verbs = "get" ∷ [];
}

abbrev pods_list : ServedList
pods_list = record {
  group_version = "apps/v1";
  resources = served "pods" ∷ served "pods/status" ∷ served "pods/status/x" ∷ [];
}

new-Total_example :
    (gvd : GroupVersionData) × (new "v1" pods_list ≡ ok gvd)
    × (gvd.version ≡ "v1")
    × (api_resources gvd.resources ≡ expected (group_version_of "apps/v1") pods_list.resources)
new-Total_example = new-Total "v1" pods_list

missing : parse_apicapabilities 1 pods_list "nodes" ≡ err (discovery (missing_resource "nodes"))
unfolding parse_apicapabilities
missing = refl

abbrev at_version : String → GroupVersionForDiscovery
at_version v = record { group_version = v; version = v }

abbrev apps_group : ServedGroup
apps_group = record {
  name = "apps";
  versions = at_version "v1beta1" ∷ at_version "v1" ∷ [];
  preferred_version = none;
}

abbrev no_core : String → Result ClientErr ServedList
no_core apiver = err (other "not core")

abbrev lists : String → Result ClientErr ServedList
lists group_version = ok pods_list

query_apis-Answered_example :
    Answered no_core lists "apps" none apps_group.versions (query_apis no_core lists apps_group)
query_apis-Answered_example = query_apis-Answered no_core lists apps_group

abbrev at : String → Described
at version = (
  record { group = "apps"; version = version; api_version = "apps"; kind = "Pod"; plural = "pods" },
  capabilities namespaced nil [],
)

abbrev two_versions : ApiGroup
two_versions = record {
  name = "apps";
  group_data =
      record { version = "v1"; resources = at "v1" ∷ [] }
      ∷ record { version = "v1beta1"; resources = at "v1beta1" ∷ [] }
      ∷ [];
  preferred = none;
}

resources_by_stability-Stable_example :
    (ds : List Described) × (resources_by_stability two_versions ≡ ok ds)
    × ((kind : String)
        → MostStable (of_kind kind (all_resources two_versions.group_data)) (of_kind kind ds))
resources_by_stability-Stable_example = resources_by_stability-Stable two_versions
