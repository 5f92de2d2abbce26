-- ===== src/Core/Version/Order.antt =====
-- The two orders of kube-core/src/version.rs. The source derives them: the fields are compared in their
-- order, constructors in theirs, no number comes before a number, and a text that is not conformant
-- is compared in reverse.
use kube.Prelude.{◌≡◌, refl, sym, ap, ◌∙◌, ℕ, zero, suc, Option, none, some, String}
use kube.Prelude.Ord.{OrdLaws, reverse_ord, option_ord, nat_ord, text_ord, pair_ord, ord_by}
use kube.Core.Version.{Version}

pub data Stability : Type 0 where
  nonconformant alpha beta stable : Stability

-- The fields of both `Priority` and `Generation`, which differ in the order of the first two.
pub record Priority : Type 0 where
  pub stability : Stability
  pub major : ℕ
  pub minor : Option ℕ
  pub nonconformant : Option String

pub record Generation : Type 0 where
  pub major : ℕ
  pub stability : Stability
  pub minor : Option ℕ
  pub nonconformant : Option String

unfoldable pub priority : Version → Priority
priority (Version.stable major) = record {
  stability = stable;
  major = major;
  minor = none;
  nonconformant = none;
}
priority (Version.beta major minor) = record {
  stability = beta;
  major = major;
  minor = minor;
  nonconformant = none;
}
priority (Version.alpha major minor) = record {
  stability = alpha;
  major = major;
  minor = minor;
  nonconformant = none;
}
priority (Version.nonconformant text) = record {
  stability = nonconformant;
  major = 0;
  minor = none;
  nonconformant = some text;
}

unfoldable pub generation : Version → Generation
generation (Version.stable major) = record {
  major = major;
  stability = stable;
  minor = none;
  nonconformant = none;
}
generation (Version.beta major minor) = record {
  major = major;
  stability = beta;
  minor = minor;
  nonconformant = none;
}
generation (Version.alpha major minor) = record {
  major = major;
  stability = alpha;
  minor = minor;
  nonconformant = none;
}
generation (Version.nonconformant text) = record {
  major = 0;
  stability = nonconformant;
  minor = none;
  nonconformant = some text;
}

abbrev rank : Stability → ℕ
rank nonconformant = 0
rank alpha = 1
rank beta = 2
rank stable = 3

abbrev stability_of : ℕ → Stability
stability_of zero = nonconformant
stability_of (suc zero) = alpha
stability_of (suc (suc zero)) = beta
stability_of (suc (suc (suc n))) = stable

stability_of-rank : (s : Stability) → stability_of (rank s) ≡ s
stability_of-rank nonconformant = refl
stability_of-rank alpha = refl
stability_of-rank beta = refl
stability_of-rank stable = refl

pub rank_same : (s t : Stability) → rank s ≡ rank t → s ≡ t
rank_same s t h = sym (stability_of-rank s) ∙ (ap stability_of h ∙ stability_of-rank t)

instance abbrev pub stability_ord : OrdLaws Stability
stability_ord = ord_by nat_ord rank rank_same

-- A text that is not conformant is compared in reverse.
abbrev pub text_field_ord : OrdLaws (Option String)
text_field_ord = option_ord ⦃o = reverse_ord⦄

abbrev pub minor_fields_ord : OrdLaws (Option ℕ × Option String)
minor_fields_ord = pair_ord ⦃o = option_ord⦄ ⦃p = text_field_ord⦄

abbrev pub priority_fields : Priority → Stability × (ℕ × (Option ℕ × Option String))
priority_fields p = (p.stability, (p.major, (p.minor, p.nonconformant)))

abbrev pub generation_fields : Generation → ℕ × (Stability × (Option ℕ × Option String))
generation_fields g = (g.major, (g.stability, (g.minor, g.nonconformant)))

pub priority_same : (p q : Priority) → priority_fields p ≡ priority_fields q → p ≡ q
priority_same p q h =
    ap (λ f. record { stability = f.0; major = f.1.0; minor = f.1.1.0; nonconformant = f.1.1.1 }) h

pub generation_same : (g h : Generation) → generation_fields g ≡ generation_fields h → g ≡ h
generation_same g h e =
    ap (λ f. record { major = f.0; stability = f.1.0; minor = f.1.1.0; nonconformant = f.1.1.1 }) e

unfoldable pub priority_ord : OrdLaws Priority
priority_ord =
    ord_by (pair_ord ⦃o = stability_ord⦄ ⦃p = pair_ord ⦃o = nat_ord⦄ ⦃p = minor_fields_ord⦄⦄)
      priority_fields priority_same

unfoldable pub generation_ord : OrdLaws Generation
generation_ord =
    ord_by (pair_ord ⦃o = nat_ord⦄ ⦃p = pair_ord ⦃o = stability_ord⦄ ⦃p = minor_fields_ord⦄⦄)
      generation_fields generation_same
