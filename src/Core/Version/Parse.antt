-- ===== src/Core/Version/Parse.antt =====
-- How the parser of kube-core/src/version.rs reads numbers and splits texts.
use Prim.Native.Char.{Char, code}
use Prim.Native.String
use text.Mathlib.TextLemmas.{cons-append, nil-append}
use kube.Prelude.{
  strip_prefix, ◌≡◌, refl, ℕ, ◌+◌, ◌*◌, ◌^◌, ◌≤◌, ◌<◌, true, false, Option, none, some, String,
  ◌+++◌, is_empty_text, ltb, nat_beq, if◌then◌else◌, arith, Bool-cases, ltb→lt, inl, inr,
}
use kube.Core.Version.{is_digit, digit, split_digits, scan, parse_u32}

abbrev pub IsDigits : String → Type 0
IsDigits String.[] = Unit
IsDigits (String.◌∷◌ c s) = (is_digit c ≡ true) × IsDigits s

-- A digit at least, and digits only.
abbrev pub IsNumber : String → Type 0
IsNumber String.[] = ⊥
IsNumber (String.◌∷◌ c s) = (is_digit c ≡ true) × IsDigits s

-- The number that digits mean after what was read.
abbrev pub value_from : String → ℕ → ℕ
value_from String.[] n = n
value_from (String.◌∷◌ c s) n = value_from s (n * 10 + digit c)

abbrev pub value : String → ℕ
value s = value_from s 0

value_from-le : (s : String) (n : ℕ) → n ≤ value_from s n
value_from-le String.[] n = omega arith
value_from-le (String.◌∷◌ c s) n = omega (arith, value_from-le s (n * 10 + digit c))

-- The reference: the number, if it fits.
abbrev pub fitting : ℕ → Option ℕ
fitting n = if ltb n (2 ^ 32) then some n else none

pub scan-fitting :
    (s : String) (n : ℕ) → n < 2 ^ 32 → IsDigits s → scan s n ≡ fitting (value_from s n)
scan-fitting String.[] n h d = ground arith
scan-fitting (String.◌∷◌ c s) n h d = elim (Bool-cases (ltb (n * 10 + digit c) (2 ^ 32))) [
  | inl fits ↦
      let below = ltb→lt (n * 10 + digit c) (2 ^ 32) fits in
      ground (arith, d.0, fits, scan-fitting s (n * 10 + digit c) below d.1)
  | inr over ↦ ground (arith, d.0, over, value_from-le s (n * 10 + digit c))
]

digit-unsigned : (c : Char) → is_digit c ≡ true → nat_beq (code c) b'+' ≡ false
digit-unsigned c h = ground arith

pub parse_u32-fitting : (s : String) → IsNumber s → parse_u32 s ≡ fitting (value s)
parse_u32-fitting String.[] number = absurd number
parse_u32-fitting (String.◌∷◌ c s) number =
    rw (digit-unsigned c number.0) (scan-fitting (String.◌∷◌ c s) 0 (omega arith) number)

abbrev pub StartsPlain : String → Type 0
StartsPlain String.[] = Unit
StartsPlain (String.◌∷◌ c s) = is_digit c ≡ false

split_digits-rest : (rest : String) → StartsPlain rest → split_digits rest ≡ ("", rest)
split_digits-rest String.[] plain = refl
split_digits-rest (String.◌∷◌ c s) plain = rw plain refl

pub split_digits-append :
    (ds rest : String) → IsDigits ds → StartsPlain rest → split_digits (ds +++ rest) ≡ (ds, rest)
split_digits-append String.[] rest d plain = rw (nil-append rest) (split_digits-rest rest plain)
split_digits-append (String.◌∷◌ c ds) rest d plain =
    rw (cons-append c ds rest, d.0, split_digits-append ds rest d.1 plain) refl

pub strip_prefix-append : (p s : String) → strip_prefix p (p +++ s) ≡ some s
strip_prefix-append String.[] s = rw (nil-append s) refl
strip_prefix-append (String.◌∷◌ c p) s =
    rw (cons-append c p s) (ground (arith, strip_prefix-append p s))

pub IsDigits-of : (s : String) → IsNumber s → IsDigits s
IsDigits-of String.[] number = tt
IsDigits-of (String.◌∷◌ c s) number = number

pub is_empty_text-cons : (c : Char) (s : String) → is_empty_text (String.◌∷◌ c s) ≡ false
is_empty_text-cons c s = rw (String.compare.cons-nil c s) refl

pub is_empty_text-append : (c : Char) (p s : String) → is_empty_text (String.◌∷◌ c p +++ s) ≡ false
is_empty_text-append c p s = rw (cons-append c p s) (is_empty_text-cons c (p +++ s))
