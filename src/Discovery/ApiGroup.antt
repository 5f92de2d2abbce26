-- ===== src/Discovery/ApiGroup.antt =====
-- kube-client/src/discovery/apigroup.rs: the resources of a group at its versions. The calls of the
-- client are functions that answer; a preferred version may be none that is served.
use kube.Prelude.{
  not, ◌&&◌, Option, none, some, List, [], ◌∷◌, String, ◌==◌, string_eq, Result, ok, err, ◌>>=◌,
  find, is_empty_text, holds_slash, if◌then◌else◌,
}
use kube.Prelude.Ord.{OrdLaws, reverse_ord}
use kube.Prelude.Sort.{sort_by_key}
use kube.Core.Gvk.{GroupVersion, GroupVersionKind, api_version, gvk_api_version}
use kube.Core.Discovery.{ApiResource, ApiCapabilities}
use kube.Core.Version.{parse}
use kube.Core.Version.Order.{Priority, priority, priority_ord}
use kube.Watcher.{ClientErr}
use kube.Discovery.{
  ServedResource, ServedList, ParseFault, discovery, missing_kind, empty_api_group,
  GroupVersionData, new, map_err, parse_apiresource, parse_apicapabilities, rounds_for,
}

-- `APIGroup` and `APIVersions`, types of k8s-openapi.
pub record GroupVersionForDiscovery : Type 0 where
  pub group_version : String
  pub version : String

pub record ServedGroup : Type 0 where
  pub name : String
  pub versions : List GroupVersionForDiscovery
  pub preferred_version : Option GroupVersionForDiscovery

-- `kube_client::Error`: of a call, or of discovery.
pub data QueryError : Type 0 where
  client : ClientErr → QueryError
  parse_failed : ParseFault → QueryError

pub record ApiGroup : Type 0 where
  pub name : String
  pub group_data : List GroupVersionData
  pub preferred : Option String

abbrev pub core_group : String
core_group = ""

-- Versions from the highest priority to the lowest.
abbrev pub descending : OrdLaws Priority
descending = reverse_ord ⦃o = priority_ord⦄

abbrev pub version_key : GroupVersionData → Priority
version_key gvd = priority (parse gvd.version)

unfoldable pub sort_versions : ApiGroup → ApiGroup
sort_versions group = record group {
  group_data = sort_by_key ⦃o = descending⦄ version_key group.group_data;
}

abbrev pub called : {A : Type 0} → Result ClientErr A → Result QueryError A
called (ok a) = ok a
called (err e) = err (client e)

abbrev pub data_of : {A : Type 0} → Result ParseFault A → Result QueryError A
data_of (ok a) = ok a
data_of (err e) = err (parse_failed e)

abbrev pub version_name : Option GroupVersionForDiscovery → Option String
version_name none = none
version_name (some v) = some v.version

module _ (list_core list_group : String → Result ClientErr ServedList) where
  abbrev pub query_versions :
      List GroupVersionForDiscovery → Result QueryError (List GroupVersionData)
  query_versions [] = ok []
  query_versions (vers ∷ rest) = do
    resources ← called (list_group vers.group_version)
    gvd ← data_of (new vers.version resources)
    later ← query_versions rest
    ok (gvd ∷ later)

  -- Of a group with its name and preferred version.
  abbrev pub query_listed :
      String
      → Option GroupVersionForDiscovery
      → List GroupVersionForDiscovery
      → Result QueryError ApiGroup
  query_listed name preferred [] = err (parse_failed (discovery (empty_api_group name)))
  query_listed name preferred (v ∷ vs) = do
    group_data ← query_versions (v ∷ vs)
    ok (
        sort_versions
          (record { name = name; group_data = group_data; preferred = version_name preferred }))

  unfoldable pub query_apis : ServedGroup → Result QueryError ApiGroup
  unfolding sort_versions new
  query_apis g = query_listed g.name g.preferred_version g.versions

  abbrev pub query_core_versions : List String → Result QueryError (List GroupVersionData)
  query_core_versions [] = ok []
  query_core_versions (v ∷ rest) = do
    resources ← called (list_core v)
    gvd ← data_of (new v resources)
    later ← query_core_versions rest
    ok (gvd ∷ later)

  unfoldable pub query_core : List String → Result QueryError ApiGroup
  unfolding sort_versions new
  query_core [] = err (parse_failed (discovery (empty_api_group core_group)))
  query_core (v ∷ vs) = do
    group_data ← query_core_versions (v ∷ vs)
    ok (
        sort_versions
          (record { name = core_group; group_data = group_data; preferred = some "v1" }))

  abbrev pub list_of : String → String → Result QueryError ServedList
  list_of group apiver =
      if is_empty_text group then called (list_core apiver) else called (list_group apiver)

  -- `show` is the text of a kind in an error.
  abbrev first_of_kind :
      (GroupVersionKind → String)
      → GroupVersionKind
      → ServedList
      → List ServedResource
      → Result QueryError (ApiResource × ApiCapabilities)
  first_of_kind show gvk list [] = err (parse_failed (discovery (missing_kind (show gvk))))
  first_of_kind show gvk list (res ∷ rest) =
      let later = first_of_kind show gvk list rest in
      if res.kind == gvk.kind && not (holds_slash res.name)
      then (do
        ar ← data_of (map_err (parse_apiresource res list.group_version))
        caps ← data_of (parse_apicapabilities (rounds_for list) list res.name)
        ok (ar, caps))
      else later

  unfoldable pub query_gvk :
      (GroupVersionKind → String)
      → GroupVersionKind
      → Result QueryError (ApiResource × ApiCapabilities)
  unfolding parse_apiresource parse_apicapabilities gvk_api_version
  query_gvk show gvk = do
    list ← list_of gvk.group (gvk_api_version gvk)
    first_of_kind show gvk list list.resources

  unfoldable pub query_gv : GroupVersion → Result QueryError ApiGroup
  unfolding new api_version
  query_gv gv = do
    list ← list_of gv.group (api_version gv)
    gvd ← data_of (new gv.version list)
    ok (record { name = gv.group; group_data = gvd ∷ []; preferred = some gv.version })

abbrev pub names : List GroupVersionData → List String
names [] = []
names (gvd ∷ rest) = gvd.version ∷ names rest

unfoldable pub versions : ApiGroup → List String
versions group = names group.group_data

-- The panic of a group without versions.
pub data NoVersion : Type 0 where
  no_version : NoVersion

abbrev pub first_version : List String → Result NoVersion String
first_version [] = err no_version
first_version (v ∷ vs) = ok v

abbrev pub preferred_or : Option String → List String → Result NoVersion String
preferred_or (some v) vs = ok v
preferred_or none vs = first_version vs

unfoldable pub preferred_version_or_latest : ApiGroup → Result NoVersion String
unfolding versions
preferred_version_or_latest group = preferred_or group.preferred (versions group)

abbrev resources_or_none : Option GroupVersionData → List (ApiResource × ApiCapabilities)
resources_or_none none = []
resources_or_none (some gvd) = gvd.resources

unfoldable pub versioned_resources : ApiGroup → String → List (ApiResource × ApiCapabilities)
unfolding find
versioned_resources group ver =
    resources_or_none (find (λ gvd. gvd.version == ver) group.group_data)

unfoldable pub recommended_resources :
    ApiGroup → Result NoVersion (List (ApiResource × ApiCapabilities))
unfolding preferred_version_or_latest versioned_resources
recommended_resources group = do
  ver ← preferred_version_or_latest group
  ok (versioned_resources group ver)

abbrev of_kind :
    String → List (ApiResource × ApiCapabilities) → Option (ApiResource × ApiCapabilities)
of_kind kind [] = none
of_kind kind ((ar, caps) ∷ rest) =
    let later = of_kind kind rest in if ar.kind == kind then some (ar, caps) else later

unfoldable pub recommended_kind :
    ApiGroup → String → Result NoVersion (Option (ApiResource × ApiCapabilities))
unfolding preferred_version_or_latest versioned_resources
recommended_kind group kind = do
  ver ← preferred_version_or_latest group
  ok (of_kind kind (versioned_resources group ver))
