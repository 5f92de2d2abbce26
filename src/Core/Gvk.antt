-- ===== src/Core/Gvk.antt =====
-- kube-core/src/gvk.rs: groups, versions and kinds. `splitn(2, '/')` gives one part or two, so that
-- the third arm of the parser, an error, is never taken.
pub mod Roundtrip
use Prim.Native.Char.{Char, code}
use Prim.Native.String
use kube.Prelude.{
  ◌≡◌, refl, sym, ap, ◌∙◌, ℕ, Bool, true, false, Option, none, some, List, [], ◌∷◌, String, ◌==◌,
  string_eq, ◌+++◌, is_empty_text, if◌then◌else◌, nat_beq, arith, string_iff, Result, ok, err,
  ◌>>=◌,
}
use kube.Core.Resource.{TypeMeta}

pub record GroupVersion : Type 0 where
  pub group : String
  pub version : String

pub record GroupVersionKind : Type 0 where
  pub group : String
  pub version : String
  pub kind : String

pub record GroupVersionResource : Type 0 where
  pub group : String
  pub version : String
  pub resource : String
  pub api_version : String

pub data ParseGroupVersionError : Type 0 where
  parse_group_version : String → ParseGroupVersionError

unfoldable pub gvk : String → String → String → GroupVersionKind
gvk group version kind = record { group = group; version = version; kind = kind }

unfoldable pub gv : String → String → GroupVersion
gv group version = record { group = group; version = version }

unfoldable pub with_kind : String → GroupVersion → GroupVersionKind
with_kind kind v = record { group = v.group; version = v.version; kind = kind }

abbrev pub longer : Char → List String → List String
longer c [] = []
longer c (part ∷ parts) = String.◌∷◌ c part ∷ parts

-- `splitn(2, '/')`.
unfoldable pub split_slash : String → List String
split_slash String.[] = "" ∷ []
split_slash (String.◌∷◌ c s) =
    let rest = split_slash s in if nat_beq (code c) b'/' then "" ∷ s ∷ [] else longer c rest

abbrev pub from_parts : String → List String → Result ParseGroupVersionError GroupVersion
from_parts text (g ∷ v ∷ []) = ok (record { group = g; version = v })
from_parts text (v ∷ []) = ok (record { group = ""; version = v })
from_parts text [] = err (parse_group_version text)
from_parts text (g ∷ v ∷ part ∷ parts) = err (parse_group_version text)

unfoldable pub from_str : String → Result ParseGroupVersionError GroupVersion
unfolding split_slash
from_str text = from_parts text (split_slash text)

-- `TryFrom<&TypeMeta>`.
unfoldable pub try_from : TypeMeta → Result ParseGroupVersionError GroupVersionKind
unfolding from_str with_kind
try_from tm = do v ← from_str tm.api_version; ok (with_kind tm.kind v)

-- The `apiVersion` of a group and a version.
unfoldable pub api_version : GroupVersion → String
api_version v = if is_empty_text v.group then v.version else v.group +++ "/" +++ v.version

unfoldable pub gvk_api_version : GroupVersionKind → String
gvk_api_version v = if is_empty_text v.group then v.version else v.group +++ "/" +++ v.version

unfoldable pub gvr : String → String → String → GroupVersionResource
gvr group version resource = record {
  group = group;
  version = version;
  resource = resource;
  api_version = if is_empty_text group then version else group +++ "/" +++ version;
}
