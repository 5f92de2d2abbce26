-- ===== src/Discovery.antt =====
-- kube-client/src/discovery/parse.rs: what a server lists becomes descriptions of resources. The
-- recursion into subresources has fuel: a subresource has a longer name than its resource, so that one
-- round more than the longest name has characters is enough.
pub mod Names
pub mod Totality
pub mod ApiGroup
pub mod Latest
pub mod Stability
use Prim.Native.String
use kube.Prelude.{
  ℕ, zero, suc, Bool, true, false, Option, none, some, List, [], ◌∷◌, String, ◌+++◌, strip_prefix,
  holds_slash, ◌==◌, string_eq, Result, ok, err, ◌>>=◌, find, leb, if◌then◌else◌,
}
use kube.Core.Gvk.{GroupVersion, ParseGroupVersionError, parse_group_version, from_str, api_version}
use kube.Core.Discovery.{
  ApiResource, ApiCapabilities, capabilities, Subresources, nil, cons, Scope, cluster, namespaced,
}

-- `APIResource` and `APIResourceList`, types of k8s-openapi.
pub record ServedResource : Type 0 where
  pub name : String
  pub kind : String
  pub group : Option String
  pub version : Option String
  pub is_namespaced : Bool
  pub verbs : List String

pub record ServedList : Type 0 where
  pub group_version : String
  pub resources : List ServedResource

pub data DiscoveryError : Type 0 where
  invalid_group_version missing_kind missing_api_group : String → DiscoveryError
  missing_resource empty_api_group : String → DiscoveryError

-- An error, or a recursion that has used up its rounds.
pub data ParseFault : Type 0 where
  discovery : DiscoveryError → ParseFault
  out_of_rounds : ParseFault

abbrev pub or_else : Option String → String → String
or_else none default = default
or_else (some text) default = text

abbrev pub describe : ServedResource → GroupVersion → ApiResource
describe ar v = record {
  group = or_else ar.group v.group;
  version = or_else ar.version v.version;
  api_version = api_version v;
  kind = ar.kind;
  plural = ar.name;
}

unfoldable pub parse_apiresource :
    ServedResource → String → Result ParseGroupVersionError ApiResource
unfolding from_str
parse_apiresource ar group_version = do v ← from_str group_version; ok (describe ar v)

abbrev pub map_err : {A : Type 0} → Result ParseGroupVersionError A → Result ParseFault A
map_err (ok a) = ok a
map_err (err (parse_group_version s)) = err (discovery (invalid_group_version s))

abbrev pub ok_or : String → Option ServedResource → Result ParseFault ServedResource
ok_or name (some ar) = ok ar
ok_or name none = err (discovery (missing_resource name))

abbrev pub scope_of : ServedResource → Scope
scope_of ar = if ar.is_namespaced then namespaced else cluster

-- A resource, as the subresource that the rest of its name says, if it is one.
abbrev pub subresource :
    (String → Result ParseFault ApiCapabilities)
    → String
    → ServedResource
    → Option String
    → Result ParseFault (Option (ApiResource × ApiCapabilities))
subresource again group_version res none = ok none
subresource again group_version res (some subresource_name) = do
  api_resource ← map_err (parse_apiresource res group_version)
  caps ← again res.name
  ok (some (record api_resource { plural = subresource_name }, caps))

abbrev pub push : Option (ApiResource × ApiCapabilities) → Subresources → Subresources
push none rest = rest
push (some (api_resource, caps)) rest = cons api_resource caps rest

abbrev pub subresources :
    (String → Result ParseFault ApiCapabilities)
    → String
    → String
    → List ServedResource
    → Result ParseFault Subresources
subresources again group_version prefix [] = ok nil
subresources again group_version prefix (res ∷ resources) = do
  item ← subresource again group_version res (strip_prefix prefix res.name)
  rest ← subresources again group_version prefix resources
  ok (push item rest)

unfoldable pub parse_apicapabilities : ℕ → ServedList → String → Result ParseFault ApiCapabilities
unfolding parse_apiresource find
parse_apicapabilities zero list name = err out_of_rounds
parse_apicapabilities (suc rounds) list name = do
  ar ← ok_or name (find (λ r. r.name == name) list.resources)
  subs ←
      subresources (parse_apicapabilities rounds list) list.group_version (name +++ "/")
        list.resources
  ok (capabilities (scope_of ar) subs ar.verbs)

abbrev pub longest : List ServedResource → ℕ
longest [] = 0
longest (res ∷ resources) =
    let rest = longest resources in
    if leb (String.count res.name) rest then rest else String.count res.name

abbrev pub rounds_for : ServedList → ℕ
rounds_for list = suc (longest list.resources)

pub record GroupVersionData : Type 0 where
  pub version : String
  pub resources : List (ApiResource × ApiCapabilities)

-- The resources that are no subresources.
abbrev pub described :
    ServedList → List ServedResource → Result ParseFault (List (ApiResource × ApiCapabilities))
described list [] = ok []
described list (res ∷ resources) =
    let rest = described list resources in
    if holds_slash res.name then rest else (do
      ar ← map_err (parse_apiresource res list.group_version)
      caps ← parse_apicapabilities (rounds_for list) list res.name
      later ← rest
      ok ((ar, caps) ∷ later))

unfoldable pub new : String → ServedList → Result ParseFault GroupVersionData
unfolding parse_apicapabilities
new version list = do
  resources ← described list list.resources
  ok (record { version = version; resources = resources })
