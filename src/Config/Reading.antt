-- ===== src/Config/Reading.antt =====
-- What the files and documents of kube-client/src/config/file_config.rs give together.
use kube.Prelude.{
  ◌≡◌, refl, sym, ap, ◌∙◌, Option, none, some, List, [], ◌∷◌, ◌++◌, map, Result, ok, err, ◌>>=◌,
}
use kube.Config.Kubeconfig.{Kubeconfig, no_kubeconfig}
use kube.Config.Outside.{Outside, read_config}
use kube.Config.Merge.{merge}
use kube.Config.Merging.{answer, merge_none}
use kube.Config.Files.{
  try_fold, kubeconfig_from_yaml, remap, merge_into, unwrap_or_default, map_err, read_from,
}
use kube.Config.Folding.{bind, bind_cong, bind_both, bind_assoc, fold}

answer-bind {ℓ κ} :
    {A : Type ℓ} {B : Type κ} {E : Type 0}
    → (r : Result E A) (f : A → Result E B) → answer (r >>= f) ≡ bind (answer r) (λ a. answer (f a))
answer-bind (ok a) f = refl
answer-bind (err e) f = refl

answer-map_err {ℓ} :
    {A : Type ℓ} {D E : Type 0} (f : D → E) (r : Result D A) → answer (map_err f r) ≡ answer r
answer-map_err f (ok a) = refl
answer-map_err f (err e) = refl

bind_inner {ℓ κ ι} :
    {A : Type ℓ} {B : Type κ} {C : Type ι} {E : Type 0}
    → (r : Result E A) (k : Option A → Result E B) (g : B → Result E C)
    → ((r >>= λ a. ok (some a)) >>= k >>= g) ≡ (r >>= λ a. k (some a) >>= g)
bind_inner (ok a) k g = refl
bind_inner (err e) k g = refl

module _ (o : Outside) where
  abbrev attempt : Kubeconfig o.Json → Kubeconfig o.Json → Option (Kubeconfig o.Json)
  attempt a b = answer (merge o a b)

  abbrev pub merged : Kubeconfig o.Json → List (Kubeconfig o.Json) → Option (Kubeconfig o.Json)
  merged = fold attempt

  answer-try_fold :
      (a : Kubeconfig o.Json) (xs : List (Kubeconfig o.Json))
      → answer (try_fold (merge o) a xs) ≡ merged a xs
  answer-try_fold a [] = refl
  answer-try_fold a (x ∷ xs) =
      answer-bind (merge o a x) (λ c. try_fold (merge o) c xs)
      ∙ bind_cong (attempt a x) _ _ (λ c. answer-try_fold c xs)

  -- The documents of a file, with absolute paths.
  abbrev pub documents_of : o.FilePath → Option (List (Kubeconfig o.Json))
  documents_of path = bind (answer (o.read_to_string path)) (λ text.
      bind (answer (kubeconfig_from_yaml o text))
        (λ docs. some (map (remap o (o.parent path)) docs)))

  abbrev pub all_documents : List o.FilePath → Option (List (Kubeconfig o.Json))
  all_documents [] = some []
  all_documents (p ∷ paths) =
      bind (documents_of p) (λ ds. bind (all_documents paths) (λ rest. some (ds ++ rest)))

  into_step :
      (c d : Kubeconfig o.Json) (docs : List (Kubeconfig o.Json))
      → (try_fold (merge_into o) (some c) (d ∷ docs) >>= λ m. ok (unwrap_or_default o m)) ≡ (
          merge o c d >>= λ b.
          try_fold (merge_into o) (some b) docs >>= λ m. ok (unwrap_or_default o m))
  into_step c d docs = bind_inner (merge o c d) _ _

  into-merged :
      (c : Kubeconfig o.Json) (docs : List (Kubeconfig o.Json))
      → answer (try_fold (merge_into o) (some c) docs >>= λ m. ok (unwrap_or_default o m))
        ≡ merged c docs
  into-merged c [] = refl
  into-merged c (d ∷ docs) =
      ap (λ r. answer r) (into_step c d docs)
      ∙ answer-bind (merge o c d) _
      ∙ bind_cong (attempt c d) _ _ (λ b. into-merged b docs)

  documents-merged :
      (docs : List (Kubeconfig o.Json))
      → answer (try_fold (merge_into o) none docs >>= λ m. ok (unwrap_or_default o m))
        ≡ merged no_kubeconfig docs
  documents-merged [] = refl
  documents-merged (d ∷ docs) =
      into-merged d docs ∙ sym (ap (λ r. bind (answer r) (λ b. merged b docs)) (merge_none o d))

  pub read_from-documents :
      (path : o.FilePath)
      → answer (read_from o path) ≡ bind (documents_of path) (merged no_kubeconfig)
  unfolding read_from
  read_from-documents path =
      answer-bind (map_err (λ source. read_config source path) (o.read_to_string path)) _
      ∙ bind_both (answer-map_err _ (o.read_to_string path)) (λ text.
        answer-bind (kubeconfig_from_yaml o text) _
        ∙ bind_cong (answer (kubeconfig_from_yaml o text)) _ _
            (λ docs. documents-merged (map (remap o (o.parent path)) docs))
        ∙ sym (bind_assoc (answer (kubeconfig_from_yaml o text)) _ _))
      ∙ sym (bind_assoc (answer (o.read_to_string path)) _ _)

  -- Nothing without a path, and else the merged documents of all the paths.
  abbrev pub given : List o.FilePath → Option (Option (Kubeconfig o.Json))
  given [] = some none
  given (p ∷ paths) =
      bind (all_documents (p ∷ paths))
        (λ docs. bind (merged no_kubeconfig docs) (λ c. some (some c)))
