-- ===== src/Core/Version/Roundtrip.antt =====
-- What the parser of kube-core/src/version.rs reads: the texts of versions.

use text.Mathlib.TextLemmas.{cons-append}
use kube.Prelude.{
  strip_prefix, ◌≡◌, refl, ℕ, false, Option, none, some, String, ◌+++◌, is_empty_text,
}
use kube.Core.Version.{
  Version, stable, beta, alpha, numbered, release_of, after_major, try_parse, parse,
  or_nonconformant,
}
use kube.Core.Version.Parse.{
  IsNumber, StartsPlain, value, fitting, parse_u32-fitting, split_digits-append,
  strip_prefix-append, IsDigits-of, is_empty_text-cons, is_empty_text-append,
}

-- How versions are written: a number, and for a preliminary release its name, with a number or without.
pub data VersionText : Type 0 where
  stable_text : String → VersionText
  beta_text alpha_text : String → Option String → VersionText

abbrev minor_text : Option String → String
minor_text none = ""
minor_text (some minor) = minor

abbrev suffix : VersionText → String
suffix (stable_text major) = ""
suffix (beta_text major minor) = "beta" +++ minor_text minor
suffix (alpha_text major minor) = "alpha" +++ minor_text minor

abbrev major_text : VersionText → String
major_text (stable_text major) = major
major_text (beta_text major minor) = major
major_text (alpha_text major minor) = major

abbrev pub render : VersionText → String
render t = "v" +++ major_text t +++ suffix t

abbrev pub IsMinor : Option String → Type 0
IsMinor none = Unit
IsMinor (some minor) = IsNumber minor

abbrev pub IsVersion : VersionText → Type 0
IsVersion (stable_text major) = IsNumber major
IsVersion (beta_text major minor) = IsNumber major × IsMinor minor
IsVersion (alpha_text major minor) = IsNumber major × IsMinor minor

abbrev release_meant : (Option ℕ → Version) → Option String → Option Version
release_meant release none = some (release none)
release_meant release (some minor) = numbered release (fitting (value minor))

abbrev meant_at : VersionText → Option ℕ → Option Version
meant_at t none = none
meant_at (stable_text m) (some major) = some (stable major)
meant_at (beta_text m minor) (some major) = release_meant (beta major) minor
meant_at (alpha_text m minor) (some major) = release_meant (alpha major) minor

-- What a text means, if its numbers fit.
abbrev pub meant : VersionText → Option Version
meant t = meant_at t (fitting (value (major_text t)))

nonempty : (s : String) → IsNumber s → is_empty_text s ≡ false
nonempty String.[] number = absurd number
nonempty (String.◌∷◌ c s) number = is_empty_text-cons c s

release_of-meant :
    (release : Option ℕ → Version) (minor : Option String)
    → IsMinor minor
    → release_of release (minor_text minor) ≡ release_meant release minor
release_of-meant release none number = refl
release_of-meant release (some minor) number =
    rw (nonempty minor number, parse_u32-fitting minor number) refl

suffix-StartsPlain : (t : VersionText) → StartsPlain (suffix t)
suffix-StartsPlain (stable_text major) = tt
suffix-StartsPlain (beta_text major minor) = rw (cons-append "b" "eta" (minor_text minor)) refl
suffix-StartsPlain (alpha_text major minor) = rw (cons-append "a" "lpha" (minor_text minor)) refl

no_alpha : (s : String) → strip_prefix "alpha" ("beta" +++ s) ≡ none
no_alpha s = rw (cons-append "b" "eta" s) refl

after_major-meant :
    (t : VersionText) (major : Option ℕ)
    → IsVersion t
    → after_major (suffix t) major ≡ meant_at t major
after_major-meant t none version = refl
after_major-meant (stable_text m) (some major) version = refl
after_major-meant (beta_text m minor) (some major) version =
    rw
      (
        is_empty_text-append "b" "eta" (minor_text minor),
        no_alpha (minor_text minor),
        strip_prefix-append "beta" (minor_text minor),
      )
      (release_of-meant (beta major) minor version.1)
after_major-meant (alpha_text m minor) (some major) version =
    rw
      (
        is_empty_text-append "a" "lpha" (minor_text minor),
        strip_prefix-append "alpha" (minor_text minor),
      )
      (release_of-meant (alpha major) minor version.1)

major_text-IsNumber : (t : VersionText) → IsVersion t → IsNumber (major_text t)
major_text-IsNumber (stable_text major) version = version
major_text-IsNumber (beta_text major minor) version = version.0
major_text-IsNumber (alpha_text major minor) version = version.0

-- Every text of a stable, beta or alpha version is read as the version that it means, leading zeros
-- allowed; if a number of it is beyond 32 bits, the text is not conformant.
pub parse-render :
    (t : VersionText) → IsVersion t → parse (render t) ≡ or_nonconformant (render t) (meant t)
unfolding parse try_parse
parse-render t version =
    let number = major_text-IsNumber t version in
    let split =
      split_digits-append (major_text t) (suffix t) (IsDigits-of (major_text t) number)
        (suffix-StartsPlain t) in
    rw
      (
        strip_prefix-append "v" (major_text t +++ suffix t),
        split,
        parse_u32-fitting (major_text t) number,
        after_major-meant t _ version,
      )
      refl
