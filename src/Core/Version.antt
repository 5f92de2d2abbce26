-- ===== src/Core/Version.antt =====
-- kube-core/src/version.rs: versions of an API, their parser; Order has their two orders. A number is read as
-- `u32::from_str` does: one `+` may lead, and a number that does not fit is refused.
pub mod Order
pub mod Parse
pub mod Precedence
pub mod Roundtrip
use Prim.Native.Nat.{Ordering}
use Prim.Native.Char.{Char, code}
use Prim.Native.String
use kube.Prelude.{
  strip_prefix, ◌≡◌, ap, ℕ, ◌+◌, ◌-◌, ◌*◌, ◌^◌, Bool, ◌&&◌, Option, none, some, String,
  is_empty_text, leb, ltb, nat_beq, if◌then◌else◌,
}

pub data Version : Type 0 where
  stable : ℕ → Version
  beta : ℕ → Option ℕ → Version
  alpha : ℕ → Option ℕ → Version
  nonconformant : String → Version

abbrev pub is_digit : Char → Bool
is_digit c = leb b'0' (code c) && leb (code c) b'9'

abbrev pub digit : Char → ℕ
digit c = code c - b'0'

abbrev pub cons_to : Char → String × String → String × String
cons_to c (ds, rest) = (String.◌∷◌ c ds, rest)

-- The text up to the first character that is no digit, and the text from there.
abbrev pub split_digits : String → String × String
split_digits String.[] = ("", "")
split_digits (String.◌∷◌ c s) =
    let split = split_digits s in if is_digit c then cons_to c split else ("", String.◌∷◌ c s)

-- The digits of a `u32`, with the number read so far.
abbrev pub scan : String → ℕ → Option ℕ
scan String.[] n = some n
scan (String.◌∷◌ c s) n =
    let rest = scan s (n * 10 + digit c) in
    if is_digit c && ltb (n * 10 + digit c) (2 ^ 32) then rest else none

abbrev pub without_sign : Char → String → String
without_sign c s = if nat_beq (code c) b'+' then s else String.◌∷◌ c s

abbrev pub scan_some : String → Option ℕ
scan_some String.[] = none
scan_some (String.◌∷◌ c s) = scan (String.◌∷◌ c s) 0

abbrev pub parse_u32 : String → Option ℕ
parse_u32 String.[] = none
parse_u32 (String.◌∷◌ c s) = scan_some (without_sign c s)

abbrev pub numbered : (Option ℕ → Version) → Option ℕ → Option Version
numbered release none = none
numbered release (some minor) = some (release (some minor))

-- What follows `alpha` or `beta`: nothing, or a number.
abbrev pub release_of : (Option ℕ → Version) → String → Option Version
release_of release suf =
    if is_empty_text suf then some (release none) else numbered release (parse_u32 suf)

abbrev pub try_beta : ℕ → Option String → Option Version
try_beta major none = none
try_beta major (some suf) = release_of (beta major) suf

abbrev pub try_alpha : ℕ → String → Option String → Option Version
try_alpha major v none = try_beta major (strip_prefix "beta" v)
try_alpha major v (some suf) = release_of (alpha major) suf

abbrev pub after_major : String → Option ℕ → Option Version
after_major v none = none
after_major v (some major) =
    if is_empty_text v then some (stable major) else try_alpha major v (strip_prefix "alpha" v)

abbrev pub after_v : Option String → Option Version
after_v none = none
after_v (some v) = after_major (split_digits v).1 (parse_u32 (split_digits v).0)

unfoldable pub try_parse : String → Option Version
try_parse v = after_v (strip_prefix "v" v)

abbrev pub or_nonconformant : String → Option Version → Version
or_nonconformant v (some ver) = ver
or_nonconformant v none = nonconformant v

unfoldable pub parse : String → Version
unfolding try_parse
parse v = or_nonconformant v (try_parse v)
