-- ===== src/Prelude/Eq.antt =====
-- Rust's `Eq`: a Boolean equivalence. It need not be equality of values, since some types of the
-- program leave fields out of their comparison.
use Prim.Native.Nat.{ℕ}
use Prim.Native.String.{String}
use mathlib.Core.Path.{◌≡◌, refl}
use mathlib.Core.Bool.{Bool, true, false, ◌&&◌}
use mathlib.Core.Option.{Option, none, some}
use native.Mathlib.Omega.{arith}
use text.Mathlib.Text.{◌==◌ as str_eq}
use text.Mathlib.TextEquality.{eq_iff}
use kube.Prelude.Tests.{nat_beq}

pub record EqLaws {ℓ} (A : Type ℓ) : Type ℓ where
  pub beq : A → A → Bool
  pub beq_refl : (a : A) → beq a a ≡ true
  pub beq_sym : (a b : A) → beq a b ≡ beq b a
  pub beq_cong : (a b c : A) → beq a b ≡ true → beq a c ≡ beq b c

infix 50 ◌==◌
abbrev pub ◌==◌ {ℓ} : {A : Type ℓ} ⦃e : EqLaws A⦄ → A → A → Bool
◌==◌ ⦃e⦄ = e.beq

module _ {ℓ} {A : Type ℓ} ⦃e : EqLaws A⦄ where
  pub eq_refl : (a : A) → (a == a) ≡ true
  eq_refl = e.beq_refl

  pub eq_sym : (a b : A) → (a == b) ≡ (b == a)
  eq_sym = e.beq_sym

  pub eq_cong : (a b c : A) → (a == b) ≡ true → (a == c) ≡ (b == c)
  eq_cong = e.beq_cong

  pub eq_trans : (a b c : A) → (a == b) ≡ true → (b == c) ≡ true → (a == c) ≡ true
  eq_trans a b c p q = ground (arith, eq_cong a b c)

pub nat_refl : (a : ℕ) → nat_beq a a ≡ true
nat_refl a = ground arith

pub nat_sym : (a b : ℕ) → nat_beq a b ≡ nat_beq b a
nat_sym a b = ground arith

pub nat_cong : (a b c : ℕ) → nat_beq a b ≡ true → nat_beq a c ≡ nat_beq b c
nat_cong a b c h = ground arith

instance abbrev pub nat_eq : EqLaws ℕ
nat_eq = record { beq = nat_beq; beq_refl = nat_refl; beq_sym = nat_sym; beq_cong = nat_cong }

pub string_refl : (a : String) → str_eq a a ≡ true
string_refl a = (eq_iff a a).1 refl

pub string_sym : (a b : String) → str_eq a b ≡ str_eq b a
string_sym a b = ground (arith, eq_iff a b, eq_iff b a)

pub string_cong : (a b c : String) → str_eq a b ≡ true → str_eq a c ≡ str_eq b c
string_cong a b c h = ground (arith, eq_iff a b)

instance abbrev pub string_eq : EqLaws String
string_eq = record {
  beq = str_eq;
  beq_refl = string_refl;
  beq_sym = string_sym;
  beq_cong = string_cong;
}

module _ {ℓ} {A : Type ℓ} ⦃e : EqLaws A⦄ where
  abbrev option_beq : Option A → Option A → Bool
  option_beq none none = true
  option_beq (some a) (some b) = a == b
  option_beq _ _ = false

  pub option_refl : (a : Option A) → option_beq a a ≡ true
  option_refl none = refl
  option_refl (some a) = eq_refl a

  pub option_sym : (a b : Option A) → option_beq a b ≡ option_beq b a
  option_sym none none = refl
  option_sym (some a) (some b) = eq_sym a b
  option_sym none (some b) = refl
  option_sym (some a) none = refl

  pub option_cong : (a b c : Option A) → option_beq a b ≡ true → option_beq a c ≡ option_beq b c
  option_cong none none c h = refl
  option_cong (some a) (some b) none h = refl
  option_cong (some a) (some b) (some c) h = eq_cong a b c h
  option_cong none (some b) c h = ground arith
  option_cong (some a) none c h = ground arith

  instance abbrev pub option_eq : EqLaws (Option A)
  option_eq = record {
    beq = option_beq;
    beq_refl = option_refl;
    beq_sym = option_sym;
    beq_cong = option_cong;
  }

module _ {ℓ κ} {A : Type ℓ} {B : Type κ} ⦃e : EqLaws A⦄ ⦃f : EqLaws B⦄ where
  abbrev pair_beq : A × B → A × B → Bool
  pair_beq p q = p.0 == q.0 && p.1 == q.1

  pub pair_refl : (a : A × B) → pair_beq a a ≡ true
  pair_refl a = ground (arith, eq_refl a.0, eq_refl a.1)

  pub pair_sym : (a b : A × B) → pair_beq a b ≡ pair_beq b a
  pair_sym a b = ground (arith, eq_sym a.0 b.0, eq_sym a.1 b.1)

  pub pair_cong : (a b c : A × B) → pair_beq a b ≡ true → pair_beq a c ≡ pair_beq b c
  pair_cong a b c h = ground (arith, eq_cong a.0 b.0 c.0, eq_cong a.1 b.1 c.1)

  instance abbrev pub pair_eq : EqLaws (A × B)
  pair_eq = record {
    beq = pair_beq;
    beq_refl = pair_refl;
    beq_sym = pair_sym;
    beq_cong = pair_cong;
  }

-- Comparison by what a function reads from the values.
module _ {ℓ κ} {A : Type ℓ} {B : Type κ} (e : EqLaws B) (f : A → B) where
  abbrev pub eq_on : EqLaws A
  eq_on = record {
    beq = λ a b. e.beq (f a) (f b);
    beq_refl = λ a. e.beq_refl (f a);
    beq_sym = λ a b. e.beq_sym (f a) (f b);
    beq_cong = λ a b c. e.beq_cong (f a) (f b) (f c);
  }
