-- ===== src/Discovery/Names.antt =====
-- Names of resources and subresources in a list of kube-client/src/discovery/parse.rs: a subresource has a
-- longer name than its resource, and none is longer than the longest.
use Prim.Native.Char.{code}
use Prim.Native.String
use text.Mathlib.TextLemmas.{length-append, length-cons, length-nil}
use kube.Prelude.{
  ◌≡◌, refl, sym, ◌∙◌, ◌≤◌, ◌<◌, inl, inr, some, List, [], ◌∷◌, String, ◌+++◌, strip_prefix, ◌==◌,
  string_eq, find, nat_beq, All, Bool-cases, arith, eq_refl,
}
use kube.Discovery.{ServedResource, longest}

strip_prefix-count :
    (p s rest : String) → strip_prefix p s ≡ some rest → String.count p ≤ String.count s
strip_prefix-count String.[] s rest h = rw length-nil (omega arith)
strip_prefix-count (String.◌∷◌ c p) String.[] rest h = absurd cc
strip_prefix-count (String.◌∷◌ c p) (String.◌∷◌ d s) rest h =
    rw (length-cons c p, length-cons d s)
      (elim (Bool-cases (nat_beq (code c) (code d))) [
        | inl same ↦ omega (arith, strip_prefix-count p s rest (sym (rw same refl) ∙ h))
        | inr other ↦ absurd (ground arith)
      ])

abbrev pub IsListed : List ServedResource → String → Type 0
IsListed l name = (r : ServedResource) × (find (λ r. r.name == name) l ≡ some r)

pub All-map :
    {P Q : ServedResource → Type 0} (l : List ServedResource)
    → ((r : ServedResource) → P r → Q r)
    → All P l
    → All Q l
All-map [] f all = tt
All-map (r ∷ rs) f all = (f r all.0, All-map rs f all.1)

IsListed-later :
    (x : ServedResource) (l : List ServedResource) (name : String)
    → IsListed l name
    → IsListed (x ∷ l) name
unfolding find
IsListed-later x l name (r, h) = elim (Bool-cases (x.name == name)) [
  | inl same ↦ (x, rw same refl)
  | inr other ↦ (r, rw other h)
]

pub All-IsListed : (l : List ServedResource) → All (λ r. IsListed l r.name) l
unfolding find
All-IsListed [] = tt
All-IsListed (x ∷ l) =
    ((x, rw (eq_refl x.name) refl), All-map l (λ r. IsListed-later x l r.name) (All-IsListed l))

pub All-short : (l : List ServedResource) → All (λ r. String.count r.name ≤ longest l) l
All-short [] = tt
All-short (x ∷ l) = (ground arith, All-map l (λ r h. ground arith) (All-short l))

-- A resource of the list, with a name that is not longer than the longest.
abbrev pub Known : List ServedResource → ServedResource → Type 0
Known l r = IsListed l r.name × (String.count r.name ≤ longest l)

pub All-Known :
    (l rs : List ServedResource)
    → All (λ r. IsListed l r.name) rs
    → All (λ r. String.count r.name ≤ longest l) rs
    → All (Known l) rs
All-Known l [] a b = tt
All-Known l (r ∷ rs) a b = ((a.0, b.0), All-Known l rs a.1 b.1)

pub longer_name :
    (name s rest : String)
    → strip_prefix (name +++ "/") s ≡ some rest
    → String.count name < String.count s
longer_name name s rest h =
    let total = strip_prefix-count (name +++ "/") s rest h in
    let one : String.count "/" ≡ 1 = refl in omega (arith, length-append name "/", total, one)
