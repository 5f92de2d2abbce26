-- ===== src/Entry.antt =====
-- kube-client/src/api/entry.rs: an object that is got, changed or made, and committed. The calls of the
-- API are functions in a state of the world; `with_meta` is what writing to `meta_mut` does.
pub mod Commits
use kube.Prelude.{
  Bool, true, false, Option, none, some, String, ◌==◌, string_eq, option_eq, if◌then◌else◌, Result,
  ok, err,
}
use kube.Core.Resource.{Resource, ObjectMeta}
use kube.Core.PatchParams.{PostParams}
use kube.Watcher.{ClientErr}

-- Writing to the metadata of an object.
pub record MetaMut {K : Type 0} (r : Resource K) : Type 0 where
  pub with_meta : ObjectMeta → K → K

pub record Api (K : Type 0) : Type 1 where
  pub World : Type 0
  pub namespace : Option String
  pub get_opt : String → World → Result ClientErr (Option K) × World
  pub create : PostParams → K → World → Result ClientErr K × World
  pub replace : String → PostParams → K → World → Result ClientErr K × World

pub data Dirtiness : Type 0 where
  clean dirty new : Dirtiness

pub record OccupiedEntry (K : Type 0) : Type 0 where
  pub dirtiness : Dirtiness
  pub name : String
  pub object : K

pub data Entry (K : Type 0) : Type 0 where
  occupied : OccupiedEntry K → Entry K
  vacant : String → Entry K

pub data CommitValidationError : Type 0 where
  name_mismatch : String → String → CommitValidationError
  namespace_mismatch : Option String → Option String → CommitValidationError
  generate_name : String → CommitValidationError

pub data CommitError : Type 0 where
  validate : CommitValidationError → CommitError
  save : ClientErr → CommitError

abbrev pub marked : Dirtiness → Dirtiness
marked clean = dirty
marked dirty = dirty
marked new = new

module _ {K : Type 0} where
  -- `get_mut`, and a write through the reference that it gives.
  unfoldable pub and_modify : (K → K) → OccupiedEntry K → OccupiedEntry K
  and_modify f e = record e { dirtiness = marked e.dirtiness; object = f e.object }

  unfoldable pub modify_entry : (K → K) → Entry K → Entry K
  unfolding and_modify
  modify_entry f (occupied e) = occupied (and_modify f e)
  modify_entry f (vacant name) = vacant name

  unfoldable pub get : Entry K → Option K
  get (occupied e) = some e.object
  get (vacant name) = none

  -- `VacantEntry::insert`.
  unfoldable pub insert : String → K → OccupiedEntry K
  insert name object = record { dirtiness = new; name = name; object = object }

  unfoldable pub or_insert : K → Entry K → OccupiedEntry K
  unfolding insert
  or_insert default (occupied e) = e
  or_insert default (vacant name) = insert name default

  abbrev found : String → Option K → Entry K
  found name (some object) = occupied (record { dirtiness = clean; name = name; object = object })
  found name none = vacant name

  abbrev looked_up :
      {W : Type 0} → String → Result ClientErr (Option K) × W → Result ClientErr (Entry K) × W
  looked_up name (ok o, w) = (ok (found name o), w)
  looked_up name (err e, w) = (err e, w)

  unfoldable pub entry : (api : Api K) → String → api.World → Result ClientErr (Entry K) × api.World
  entry api name w = looked_up name (api.get_opt name w)

-- The checks of the metadata, one after the other, each on what the one before has written: the
-- metadata after them, and an error.
abbrev pub check_generate_name :
    ObjectMeta → Option String → ObjectMeta × Result CommitValidationError (Unit {0})
check_generate_name m none = (m, ok tt)
check_generate_name m (some g) = (m, err (generate_name g))

abbrev pub check_namespace :
    Option String
    → ObjectMeta
    → Option String
    → ObjectMeta × Result CommitValidationError (Unit {0})
check_namespace expected m none =
    check_generate_name (record m { namespace = expected }) m.generate_name
check_namespace expected m (some ns) =
    if some ns == expected
    then check_generate_name m m.generate_name
    else (m, err (namespace_mismatch (some ns) expected))

abbrev pub check_name :
    String
    → Option String
    → ObjectMeta
    → Option String
    → ObjectMeta × Result CommitValidationError (Unit {0})
check_name expected namespace m none =
    check_namespace namespace (record m { name = some expected }) m.namespace
check_name expected namespace m (some name) =
    if name == expected
    then check_namespace namespace m m.namespace
    else (m, err (name_mismatch name expected))

module _ {K : Type 0} {r : Resource K} (mm : MetaMut r) (api : Api K) where
  abbrev pub prepared :
      OccupiedEntry K
      → ObjectMeta × Result CommitValidationError (Unit {0})
      → OccupiedEntry K × Result CommitValidationError (Unit {0})
  prepared e (m, answer) = (record e { object = mm.with_meta m e.object }, answer)

  unfoldable pub prepare_for_commit :
      OccupiedEntry K → OccupiedEntry K × Result CommitValidationError (Unit {0})
  prepare_for_commit e =
      let m = r.meta e.object in prepared e (check_name e.name api.namespace m m.name)

  abbrev pub Committed : Type 0
  Committed = Result CommitError (Unit {0}) × OccupiedEntry K × api.World

  abbrev pub cleaned : Bool → Dirtiness → Dirtiness
  cleaned dry_run d = if dry_run then d else clean

  abbrev pub saved : OccupiedEntry K → PostParams → Result ClientErr K × api.World → Committed
  saved e pp (ok object, w) =
      (ok tt, record e { dirtiness = cleaned pp.dry_run e.dirtiness; object = object }, w)
  saved e pp (err x, w) = (err (save x), e, w)

  abbrev pub save_as : Dirtiness → OccupiedEntry K → PostParams → api.World → Committed
  save_as new e pp w = saved e pp (api.create pp e.object w)
  save_as dirty e pp w = saved e pp (api.replace e.name pp e.object w)
  save_as clean e pp w = saved e pp (ok e.object, w)

  abbrev pub commit_prepared :
      PostParams → api.World → OccupiedEntry K × Result CommitValidationError (Unit {0}) → Committed
  commit_prepared pp w (e, ok u) = save_as e.dirtiness e pp w
  commit_prepared pp w (e, err x) = (err (validate x), e, w)

  unfoldable pub commit : OccupiedEntry K → PostParams → api.World → Committed
  unfolding prepare_for_commit
  commit e pp w = commit_prepared pp w (prepare_for_commit e)
