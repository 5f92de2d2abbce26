-- ===== src/Entry/Commits.antt =====
-- What commits of kube-client/src/api/entry.rs save: the API is watched through a log of its saves.
use kube.Prelude.{
  ◌≡◌, refl, sym, ap, subst, ◌∙◌, Bool, true, false, not, ◌&&◌, Option, none, some, List, [], ◌∷◌,
  ◌++◌, String, ◌==◌, string_eq, option_eq, string_iff, if◌then◌else◌, Result, ok, err, ◌⊎◌, inl,
  inr, Bool-cases,
}
use kube.Core.Resource.{Resource, ObjectMeta}
use kube.Core.PatchParams.{PostParams}
use kube.Core.Patching.{is_ok}
use kube.Watcher.{ClientErr}
use kube.Entry.{
  MetaMut, Api, Dirtiness, clean, dirty, new, OccupiedEntry, CommitValidationError, CommitError,
  validate, save, check_generate_name, check_namespace, check_name, prepared, saved, save_as,
  commit_prepared, commit, Committed,
}

pub record Save (K : Type 0) : Type 0 where
  pub is_create : Bool
  pub dry_run : Bool
  pub object : K
  pub succeeded : Bool

abbrev logging :
    {K W : Type 0}
    → Bool
    → Bool
    → K
    → List (Save K)
    → Result ClientErr K × W
    → Result ClientErr K × (W × List (Save K))
logging is_create dry_run object log (answer, w) = (
  answer,
  (
    w,
    log
        ++ (record {
          is_create = is_create;
          dry_run = dry_run;
          object = object;
          succeeded = is_ok answer;
        }
            ∷ []),
  ),
)

abbrev not_logging : {A W L : Type 0} → L → A × W → A × (W × L)
not_logging log (answer, w) = (answer, (w, log))

-- The API, with the saves in its world.
abbrev pub logged : {K : Type 0} → Api K → Api K
logged {K = K} api = record {
  World = api.World × List (Save K);
  namespace = api.namespace;
  get_opt = λ name w. not_logging w.1 (api.get_opt name w.0);
  create = λ pp object w. logging true pp.dry_run object w.1 (api.create pp object w.0);
  replace =
      λ name pp object w. logging false pp.dry_run object w.1 (api.replace name pp object w.0);
}

-- Metadata of the entry's object: its name, the namespace of the API, and no name to be made up.
abbrev pub IsOwn : String → Option String → ObjectMeta → Type 0
IsOwn name namespace m = (m.name ≡ some name) × (m.namespace ≡ namespace) × (m.generate_name ≡ none)

abbrev Own : String → Option String → ObjectMeta × Result CommitValidationError (Unit {0}) → Type 0
Own name namespace (m, ok u) = IsOwn name namespace m
Own name namespace (m, err e) = Unit

generate_name-Own :
    (name : String) (namespace : Option String) (m : ObjectMeta) (o : Option String)
    → m.generate_name ≡ o
    → m.name ≡ some name
    → m.namespace ≡ namespace
    → Own name namespace (check_generate_name m o)
generate_name-Own name namespace m none g n ns = (n, ns, g)
generate_name-Own name namespace m (some x) g n ns = tt

same_namespace :
    (ns : String) (namespace : Option String) → (some ns == namespace) ≡ true → some ns ≡ namespace
same_namespace ns none h = absurd cc
same_namespace ns (some x) h = ap some ((string_iff ns x).0 h)

namespace-Own :
    (name : String) (namespace : Option String) (m : ObjectMeta) (o : Option String)
    → m.namespace ≡ o
    → m.name ≡ some name
    → Own name namespace (check_namespace namespace m o)
namespace-Own name namespace m none ns n =
    generate_name-Own name namespace (record m { namespace = namespace }) m.generate_name refl n
      refl
namespace-Own name namespace m (some x) ns n = elim (Bool-cases (some x == namespace)) [
  | inl same ↦ rw same (
      generate_name-Own name namespace m m.generate_name refl n
        (ns ∙ same_namespace x namespace same))
  | inr other ↦ rw other tt
]

name-Own :
    (name : String) (namespace : Option String) (m : ObjectMeta) (o : Option String)
    → m.name ≡ o
    → Own name namespace (check_name name namespace m o)
name-Own name namespace m none n =
    namespace-Own name namespace (record m { name = some name }) m.namespace refl refl
name-Own name namespace m (some x) n = elim (Bool-cases (x == name)) [
  | inl same ↦
      rw same
        (namespace-Own name namespace m m.namespace refl (n ∙ ap some ((string_iff x name).0 same)))
  | inr other ↦ rw other tt
]

-- What a save is for: a create for a new entry, a replace for a changed one.
abbrev saved_for : Bool → Dirtiness
saved_for true = new
saved_for false = dirty

cleaned-if :
    (dry_run : Bool) (d : Dirtiness)
    → (if dry_run then d else clean) ≡ (if not dry_run then clean else d)
cleaned-if true d = refl
cleaned-if false d = refl

still_clean : (dry_run : Bool) (d : Dirtiness) → d ≡ clean → (if dry_run then d else clean) ≡ d
still_clean true d h = refl
still_clean false d h = sym h

module _ {K : Type 0} {r : Resource K} (mm : MetaMut r) (api : Api K) where
  -- A save that was logged: a create of a new entry or a replace of a changed one, of an object with the
  -- entry's metadata; the entry is clean after a success that is no dry run, and else stays as it is.
  abbrev Saved : OccupiedEntry K → PostParams → List (Save K) → Committed mm (logged api) → Type 0
  Saved e pp log (answer, e', (w', log')) =
      (s : Save K) × (log' ≡ log ++ (s ∷ []))
      × (e.dirtiness ≡ saved_for s.is_create)
      × (s.dry_run ≡ pp.dry_run)
      × IsOwn e.name api.namespace (r.meta s.object)
      × (s.succeeded ≡ is_ok answer)
      × (e'.dirtiness ≡ (if is_ok answer && not pp.dry_run then clean else e.dirtiness))

  -- Why there is no save: the entry was clean, or its metadata were refused.
  abbrev Spared : OccupiedEntry K → Result CommitError (Unit {0}) → Type 0
  Spared e (ok u) = e.dirtiness ≡ clean
  Spared e (err (validate x)) =
      (check_name e.name api.namespace (r.meta e.object) (r.meta e.object).name).1 ≡ err x
  Spared e (err (save x)) = ⊥

  -- No save, and the entry is as clean as before.
  abbrev Unsaved : OccupiedEntry K → List (Save K) → Committed mm (logged api) → Type 0
  Unsaved e log (answer, e', (w', log')) =
      (log' ≡ log) × (e'.dirtiness ≡ e.dirtiness) × Spared e answer

  abbrev pub Allowed :
      OccupiedEntry K → PostParams → List (Save K) → Committed mm (logged api) → Type 0
  Allowed e pp log answer = Saved e pp log answer ⊎ Unsaved e log answer

  saved-Saved :
      (e : OccupiedEntry K) (pp : PostParams) (log : List (Save K)) (is_create : Bool)
      (answer : Result ClientErr K × api.World)
      → e.dirtiness ≡ saved_for is_create
      → IsOwn e.name api.namespace (r.meta e.object)
      → Saved e pp log
          (saved mm (logged api) e pp (logging is_create pp.dry_run e.object log answer))
  saved-Saved e pp log is_create (ok object, w) kind own =
      (_, refl, kind, refl, own, refl, cleaned-if pp.dry_run e.dirtiness)
  saved-Saved e pp log is_create (err x, w) kind own = (_, refl, kind, refl, own, refl, refl)

  save_as-Allowed :
      (d : Dirtiness) (e : OccupiedEntry K) (obj : K) (pp : PostParams) (w : api.World)
      (log : List (Save K))
      → e.dirtiness ≡ d
      → IsOwn e.name api.namespace (r.meta obj)
      → Allowed e pp log (save_as mm (logged api) d (record e { object = obj }) pp (w, log))
  save_as-Allowed new e obj pp w log h own =
      inl (saved-Saved (record e { object = obj }) pp log true (api.create pp obj w) h own)
  save_as-Allowed dirty e obj pp w log h own =
      inl (saved-Saved (record e { object = obj }) pp log false (api.replace e.name pp obj w) h own)
  save_as-Allowed clean e obj pp w log h own = inr (refl, still_clean pp.dry_run e.dirtiness h, h)

  -- Reading metadata that were written gives them.
  module _ (meta-with_meta : (m : ObjectMeta) (obj : K) → r.meta (mm.with_meta m obj) ≡ m) where
    prepared-Allowed :
        (e : OccupiedEntry K) (pp : PostParams) (w : api.World) (log : List (Save K))
        (c : ObjectMeta × Result CommitValidationError (Unit {0}))
        → check_name e.name api.namespace (r.meta e.object) (r.meta e.object).name ≡ c
        → Own e.name api.namespace c
        → Allowed e pp log
            (commit_prepared mm (logged api) pp (w, log) (prepared mm (logged api) e c))
    prepared-Allowed e pp w log (m, ok u) h own =
        save_as-Allowed e.dirtiness e (mm.with_meta m e.object) pp w log refl
          (subst (IsOwn e.name api.namespace) (sym (meta-with_meta m e.object)) own)
    prepared-Allowed e pp w log (m, err x) h own = inr (refl, refl, ap (λ c. c.1) h)

    -- Whatever the API answers, a commit saves at most once: a new entry by a create, a changed one by
    -- a replace, a clean one not at all; what it saves has the name of the entry and the namespace of
    -- the API, and no name to be made up; it succeeds exactly if the save does, and then, unless it is
    -- a dry run, the entry is clean; else the entry stays as new or as changed as it is.
    pub commit-Allowed :
        (e : OccupiedEntry K) (pp : PostParams) (w : api.World) (log : List (Save K))
        → Allowed e pp log (commit mm (logged api) e pp (w, log))
    unfolding commit
    commit-Allowed e pp w log =
        prepared-Allowed e pp w log
          (check_name e.name api.namespace (r.meta e.object) (r.meta e.object).name) refl
          (name-Own e.name api.namespace (r.meta e.object) (r.meta e.object).name refl)
