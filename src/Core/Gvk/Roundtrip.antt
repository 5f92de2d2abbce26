-- ===== src/Core/Gvk/Roundtrip.antt =====
-- The parser of group and version of kube-core/src/gvk.rs reads back what it prints.
use text.Mathlib.TextLemmas.{cons-append, nil-append}
use kube.Prelude.{
  holds_slash, ◌≡◌, refl, sym, ap, ◌∙◌, false, ◌&&◌, [], ◌∷◌, String, string_eq, ◌+++◌,
  is_empty_text, arith, string_iff, ok, inl, inr, Bool-cases,
}
use kube.Core.Gvk.{GroupVersion, split_slash, from_str, api_version}

pub slash-append : (v : String) → "/" +++ v ≡ String.◌∷◌ "/" v
slash-append v = cons-append "/" "" v ∙ ap (λ s. String.◌∷◌ "/" s) (nil-append v)

pub split_slash-group :
    (g v : String) → holds_slash g ≡ false → split_slash (g +++ "/" +++ v) ≡ g ∷ v ∷ []
unfolding split_slash
split_slash-group String.[] v h = rw (nil-append ("/" +++ v), slash-append v) refl
split_slash-group (String.◌∷◌ c g) v h =
    rw (cons-append c g ("/" +++ v)) (ground (arith, split_slash-group g v))

pub split_slash-version : (v : String) → holds_slash v ≡ false → split_slash v ≡ v ∷ []
unfolding split_slash
split_slash-version String.[] h = refl
split_slash-version (String.◌∷◌ c v) h = ground (arith, split_slash-version v)

-- A group without a slash and a version are read back from the `apiVersion` that they give, if the
-- version holds no slash where the group is empty.
pub from_str-api_version :
    (v : GroupVersion)
    → holds_slash v.group ≡ false
    → (is_empty_text v.group && holds_slash v.version) ≡ false
    → from_str (api_version v) ≡ ok v
unfolding from_str api_version
from_str-api_version v plain core = elim (Bool-cases (is_empty_text v.group)) [
  | inl is_core ↦
      let empty_group : v.group ≡ "" = (string_iff v.group "").0 is_core in
      let whole = split_slash-version v.version (ground (arith, core, is_core)) in
      rw (is_core, whole)
        (ap (λ g. ok (record { group = g; version = v.version })) (sym empty_group))
  | inr grouped ↦ rw (grouped, split_slash-group v.group v.version plain) refl
]
