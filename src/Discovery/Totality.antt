-- ===== src/Discovery/Totality.antt =====
-- Discovery of kube-client/src/discovery/parse.rs never fails on a list of resources.
use Prim.Native.Char.{Char, code}
use Prim.Native.String
use kube.Prelude.{
  ◌≡◌, refl, ℕ, zero, suc, ◌+◌, ◌≤◌, inl, inr, Option, none, some, List, [], ◌∷◌, String, ◌+++◌,
  strip_prefix, holds_slash, string_eq, Result, ok, ◌>>=◌, nat_beq, if◌then◌else◌, All, Bool-cases,
  arith,
}
use kube.Core.Gvk.{GroupVersion, longer, split_slash, from_parts, from_str}
use kube.Core.Discovery.{ApiResource, ApiCapabilities}
use kube.Discovery.{
  ServedResource, ServedList, ParseFault, describe, parse_apiresource, subresource, subresources,
  parse_apicapabilities, longest, rounds_for, GroupVersionData, described, new,
}
use kube.Discovery.Names.{IsListed, Known, All-map, All-IsListed, All-short, All-Known, longer_name}

-- One part or two.
abbrev IsParts : List String → Type 0
IsParts (v ∷ []) = Unit
IsParts (g ∷ v ∷ []) = Unit
IsParts [] = ⊥
IsParts (g ∷ v ∷ part ∷ parts) = ⊥

longer-IsParts : (c : Char) (parts : List String) → IsParts parts → IsParts (longer c parts)
longer-IsParts c [] h = h
longer-IsParts c (v ∷ []) h = tt
longer-IsParts c (g ∷ v ∷ []) h = tt
longer-IsParts c (g ∷ v ∷ part ∷ parts) h = h

split_slash-IsParts : (text : String) → IsParts (split_slash text)
unfolding split_slash
split_slash-IsParts String.[] = tt
split_slash-IsParts (String.◌∷◌ c s) = elim (Bool-cases (nat_beq (code c) b'/')) [
  | inl h ↦ rw h tt
  | inr h ↦ rw h (longer-IsParts c (split_slash s) (split_slash-IsParts s))
]

-- The parser of group and version gives one for every text.
abbrev parsed : List String → GroupVersion
parsed [] = record { group = ""; version = "" }
parsed (v ∷ []) = record { group = ""; version = v }
parsed (g ∷ v ∷ parts) = record { group = g; version = v }

abbrev pub group_version_of : String → GroupVersion
group_version_of text = parsed (split_slash text)

from_parts-parsed :
    (text : String) (parts : List String)
    → IsParts parts
    → from_parts text parts ≡ ok (parsed parts)
from_parts-parsed text [] h = absurd h
from_parts-parsed text (v ∷ []) h = refl
from_parts-parsed text (g ∷ v ∷ []) h = refl
from_parts-parsed text (g ∷ v ∷ part ∷ parts) h = absurd h

parse_apiresource-describe :
    (res : ServedResource) (gv : String)
    → parse_apiresource res gv ≡ ok (describe res (group_version_of gv))
unfolding parse_apiresource from_str
parse_apiresource-describe res gv =
    rw (from_parts-parsed gv (split_slash gv) (split_slash-IsParts gv)) refl

abbrev IsOk : {A : Type 0} → Result ParseFault A → Type 0
IsOk {A = A} r = (a : A) × (r ≡ ok a)

IsOk-bind :
    {A B : Type 0} (r : Result ParseFault A) (f : A → Result ParseFault B)
    → IsOk r
    → ((a : A) → IsOk (f a))
    → IsOk (r >>= f)
IsOk-bind r f (a, h) good = rw h (good a)

-- Where a recursive call is made, it answers.
abbrev Answers : (String → Result ParseFault ApiCapabilities) → String → ServedResource → Type 0
Answers again prefix r =
    (rest : String) → strip_prefix prefix r.name ≡ some rest → IsOk (again r.name)

subresource-IsOk :
    (again : String → Result ParseFault ApiCapabilities) (gv : String) (res : ServedResource)
    (found : Option String)
    → ((rest : String) → found ≡ some rest → IsOk (again res.name))
    → IsOk (subresource again gv res found)
subresource-IsOk again gv res none answers = (none, refl)
subresource-IsOk again gv res (some name) answers =
    rw (parse_apiresource-describe res gv) (IsOk-bind _ _ (answers name refl) λ caps. (_, refl))

subresources-IsOk :
    (again : String → Result ParseFault ApiCapabilities) (gv prefix : String)
    (rs : List ServedResource)
    → All (Answers again prefix) rs
    → IsOk (subresources again gv prefix rs)
subresources-IsOk again gv prefix [] answers = (_, refl)
subresources-IsOk again gv prefix (r ∷ rs) answers =
    IsOk-bind _ _ (subresource-IsOk again gv r (strip_prefix prefix r.name) answers.0)
      λ item. IsOk-bind _ _ (subresources-IsOk again gv prefix rs answers.1) λ rest. (_, refl)

caps_from :
    (rounds : ℕ) (list : ServedList) (name : String)
    → IsListed list.resources name
    → ((res : ServedResource)
        → Known list.resources res
        → Answers (parse_apicapabilities rounds list) (name +++ "/") res)
    → IsOk (parse_apicapabilities (suc rounds) list name)
unfolding parse_apicapabilities
caps_from rounds list name (r, h) answers = rw h (
    IsOk-bind _ _
      (subresources-IsOk (parse_apicapabilities rounds list) list.group_version (name +++ "/")
        list.resources
        (All-map list.resources answers (
          All-Known list.resources list.resources (All-IsListed list.resources)
            (All-short list.resources))))
      λ subs. (_, refl))

recursion-IsOk :
    (rounds : ℕ) (list : ServedList) (name : String) (res : ServedResource)
    → Known list.resources res
    → longest list.resources ≤ rounds + String.count name
    → Answers (parse_apicapabilities rounds list) (name +++ "/") res
recursion-IsOk zero list name res known enough rest starts =
    let grown = longer_name name res.name rest starts in
    let short = known.1 in absurd (omega (arith, grown, short, enough))
recursion-IsOk (suc rounds) list name res known enough rest starts =
    let grown = longer_name name res.name rest starts in
    caps_from rounds list res.name known.0
      λ res' known'. recursion-IsOk rounds list res.name res' known' (omega (arith, grown, enough))

parse_apicapabilities-IsOk :
    (list : ServedList) (name : String)
    → IsListed list.resources name
    → IsOk (parse_apicapabilities (rounds_for list) list name)
parse_apicapabilities-IsOk list name listed =
    caps_from (longest list.resources) list name listed
      λ res known. recursion-IsOk (longest list.resources) list name res known (omega arith)

-- The data without their capabilities: what `describe` says of each resource that is no subresource.
abbrev pub expected : GroupVersion → List ServedResource → List ApiResource
expected v [] = []
expected v (r ∷ rs) =
    let rest = expected v rs in if holds_slash r.name then rest else describe r v ∷ rest

abbrev pub api_resources : List (ApiResource × ApiCapabilities) → List ApiResource
api_resources [] = []
api_resources ((ar, caps) ∷ rest) = ar ∷ api_resources rest

abbrev Described :
    GroupVersion
    → List ServedResource
    → Result ParseFault (List (ApiResource × ApiCapabilities))
    → Type 0
Described v rs r =
    (l : List (ApiResource × ApiCapabilities)) × (r ≡ ok l) × (api_resources l ≡ expected v rs)

described-Described :
    (list : ServedList) (rs : List ServedResource)
    → All (Known list.resources) rs
    → Described (group_version_of list.group_version) rs (described list rs)
described-Described list [] known = ([], refl, refl)
described-Described list (r ∷ rs) known =
    let (rest, h, same) = described-Described list rs known.1 in
    elim (Bool-cases (holds_slash r.name)) [
      | inl sub ↦ (rest, rw (sub, h) refl, rw (sub, same) refl)
      | inr top ↦
          let (caps, k) = parse_apicapabilities-IsOk list r.name known.0.0 in
          (
            (describe r (group_version_of list.group_version), caps) ∷ rest,
            rw (top, parse_apiresource-describe r list.group_version, k, h) refl,
            rw (top, same) refl,
          )
    ]

-- A list of resources is never refused, whatever its names and its group version are, and the rounds of
-- the recursion into subresources are enough: the data are of the version, and describe the resources
-- whose names hold no slash, in their order.
pub new-Total :
    (version : String) (list : ServedList)
    → (gvd : GroupVersionData) × (new version list ≡ ok gvd)
      × (gvd.version ≡ version)
      × (api_resources gvd.resources
          ≡ expected (group_version_of list.group_version) list.resources)
unfolding new
new-Total version list =
    let (l, h, same) = described-Described list list.resources (
      All-Known list.resources list.resources (All-IsListed list.resources)
        (All-short list.resources)) in
    (record { version = version; resources = l }, rw h refl, refl, same)
