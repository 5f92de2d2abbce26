-- ===== src/Prelude/Texts.antt =====
-- Texts: Rust's `format!` as an operator, and the test of two texts as a path.
use Prim.Native.String
use Prim.Native.String.{String}
use mathlib.Core.Path.{◌≡◌}
use mathlib.Core.Logic.{◌↔◌}
use Prim.Native.Char.{code}
use mathlib.Core.Bool.{Bool, true, false, ◌||◌}
use mathlib.Core.Option.{Option, none, some}
use kube.Prelude.Tests.{nat_beq, if◌then◌else◌}
use text.Mathlib.TextEquality.{eq_iff}
use kube.Prelude.Eq.{◌==◌, string_eq}

-- One text after the other.
infixr 65 ◌+++◌
abbrev pub ◌+++◌ : String → String → String
s +++ t = String.◌++◌ s t

pub string_iff : (s t : String) → ((s == t) ≡ true) ↔ (s ≡ t)
string_iff = eq_iff

abbrev pub is_empty_text : String → Bool
is_empty_text s = s == ""

abbrev pub strip_prefix : String → String → Option String
strip_prefix String.[] s = some s
strip_prefix (String.◌∷◌ c p) String.[] = none
strip_prefix (String.◌∷◌ c p) (String.◌∷◌ d s) =
    let rest = strip_prefix p s in if nat_beq (code c) (code d) then rest else none

-- `contains('/')`.
abbrev pub holds_slash : String → Bool
holds_slash String.[] = false
holds_slash (String.◌∷◌ c s) = nat_beq (code c) b'/' || holds_slash s
