-- ===== src/Core/Version/Precedence.antt =====
-- What the two orders of kube-core/src/version.rs mean: the precedence that Kubernetes documents.
use Prim.Native.Nat.{compare, Ordering}
use Prim.Native.String.{then, compare as compare_text}
use kube.Prelude.{◌≡◌, refl, sym, ap, ◌∙◌, ℕ, Option, none, some, String}
use kube.Prelude.Ord.{OrdLaws, cmp, ord_by, compare_option, nat_ord}
use kube.Core.Version.{Version, stable, beta, alpha, nonconformant}
use kube.Core.Version.Order.{
  Stability, stability_ord, Priority, Generation, priority, generation, priority_ord,
  generation_ord,
}

abbrev pub compare_priority : Version → Version → Ordering
compare_priority v w = priority_ord.compare (priority v) (priority w)

abbrev pub compare_generation : Version → Version → Ordering
compare_generation v w = generation_ord.compare (generation v) (generation w)

-- The documented order: any stable version comes above any beta, that above any alpha, and that above
-- all other texts; within a release numbers decide, and other texts are alphabetical, the first on top.
abbrev pub kubectl_order : Version → Version → Ordering
kubectl_order (stable m) (stable n) = compare m n
kubectl_order (beta m i) (beta n j) = then (compare m n) (compare_option i j)
kubectl_order (alpha m i) (alpha n j) = then (compare m n) (compare_option i j)
kubectl_order (nonconformant s) (nonconformant t) = compare_text t s
kubectl_order (stable m) w = Ordering.gt
kubectl_order v (stable n) = Ordering.lt
kubectl_order (beta m i) w = Ordering.gt
kubectl_order v (beta n j) = Ordering.lt
kubectl_order (alpha m i) w = Ordering.gt
kubectl_order v (alpha n j) = Ordering.lt

then-eq : (o : Ordering) → then o Ordering.eq ≡ o
then-eq Ordering.lt = refl
then-eq Ordering.eq = refl
then-eq Ordering.gt = refl

-- Comparing priorities is the documented order.
pub compare_priority-kubectl_order : (v w : Version) → compare_priority v w ≡ kubectl_order v w
unfolding priority_ord priority
compare_priority-kubectl_order (stable m) (stable n) = then-eq (compare m n)
compare_priority-kubectl_order (stable m) (beta n j) = refl
compare_priority-kubectl_order (stable m) (alpha n j) = refl
compare_priority-kubectl_order (stable m) (nonconformant t) = refl
compare_priority-kubectl_order (beta m i) (stable n) = refl
compare_priority-kubectl_order (beta m i) (beta n j) =
    ap (then (compare m n)) (then-eq (compare_option i j))
compare_priority-kubectl_order (beta m i) (alpha n j) = refl
compare_priority-kubectl_order (beta m i) (nonconformant t) = refl
compare_priority-kubectl_order (alpha m i) (stable n) = refl
compare_priority-kubectl_order (alpha m i) (beta n j) = refl
compare_priority-kubectl_order (alpha m i) (alpha n j) =
    ap (then (compare m n)) (then-eq (compare_option i j))
compare_priority-kubectl_order (alpha m i) (nonconformant t) = refl
compare_priority-kubectl_order (nonconformant s) (stable n) = refl
compare_priority-kubectl_order (nonconformant s) (beta n j) = refl
compare_priority-kubectl_order (nonconformant s) (alpha n j) = refl
compare_priority-kubectl_order (nonconformant s) (nonconformant t) = refl

abbrev pub major_of : Version → ℕ
major_of (stable major) = major
major_of (beta major minor) = major
major_of (alpha major minor) = major
major_of (nonconformant text) = 0

major_of-priority : (v : Version) → (priority v).major ≡ major_of v
unfolding priority
major_of-priority (stable major) = refl
major_of-priority (beta major minor) = refl
major_of-priority (alpha major minor) = refl
major_of-priority (nonconformant text) = refl

abbrev regroup : Priority → Generation
regroup p = record {
  major = p.major;
  stability = p.stability;
  minor = p.minor;
  nonconformant = p.nonconformant;
}

regroup-priority : (v : Version) → generation v ≡ regroup (priority v)
unfolding priority generation
regroup-priority (stable major) = refl
regroup-priority (beta major minor) = refl
regroup-priority (alpha major minor) = refl
regroup-priority (nonconformant text) = refl

swap_heads : (o p q : Ordering) → then o (then p q) ≡ then o (then p (then o q))
swap_heads Ordering.lt p q = refl
swap_heads Ordering.eq p q = refl
swap_heads Ordering.gt p q = refl

compare-regroup :
    (p q : Priority)
    → generation_ord.compare (regroup p) (regroup q)
      ≡ then (compare p.major q.major) (priority_ord.compare p q)
unfolding priority_ord generation_ord
compare-regroup p q = swap_heads (compare p.major q.major) (cmp p.stability q.stability) _

-- The generation is decided by the major number, 0 for a text that is not conformant, and among equal
-- ones by the priority.
pub compare_generation-compare_priority :
    (v w : Version)
    → compare_generation v w ≡ then (compare (major_of v) (major_of w)) (compare_priority v w)
unfolding generation_ord priority_ord
compare_generation-compare_priority v w =
    rw (regroup-priority v, regroup-priority w, ← major_of-priority v, ← major_of-priority w)
      (compare-regroup (priority v) (priority w))

abbrev text_or_empty : Option String → String
text_or_empty none = ""
text_or_empty (some text) = text

abbrev version_of : Stability → Priority → Version
version_of Stability.stable p = stable p.major
version_of Stability.beta p = beta p.major p.minor
version_of Stability.alpha p = alpha p.major p.minor
version_of Stability.nonconformant p = nonconformant (text_or_empty p.nonconformant)

version_of-priority : (v : Version) → version_of (priority v).stability (priority v) ≡ v
unfolding priority
version_of-priority (stable major) = refl
version_of-priority (beta major minor) = refl
version_of-priority (alpha major minor) = refl
version_of-priority (nonconformant text) = refl

pub priority_inj : (v w : Version) → priority v ≡ priority w → v ≡ w
priority_inj v w h =
    sym (version_of-priority v) ∙ (ap (λ p. version_of p.stability p) h ∙ version_of-priority w)

-- Versions by their priority.
instance abbrev pub version_ord : OrdLaws Version
version_ord = ord_by priority_ord priority priority_inj
