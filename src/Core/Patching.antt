-- ===== src/Core/Patching.antt =====
-- What the queries of patch calls of kube-core/src/params.rs carry, and which parameters are valid.
use kube.Prelude.{
  ◌≡◌, Bool, true, false, not, ◌&&◌, ◌||◌, Option, none, some, [], String, ◌==◌, string_eq,
  if◌then◌else◌, arith, is_some, leb, Result, ok, err,
}
use Prim.Native.String.{len}
use kube.Core.Query.{Query}
use kube.Core.Roundtrip.{lookup, as_text}
use kube.Core.PatchParams.{
  ValidationDirective, strict, warn, ignore, Patch, PatchParams, is_apply, validate, populate_qp,
}

abbrev as_directive : Option String → Option ValidationDirective
as_directive none = none
as_directive (some s) =
    if s == "Strict"
    then some strict
    else if s == "Warn"
    then some warn
    else if s == "Ignore"
    then some ignore
    else none

abbrev pub read_patch_params : Query → PatchParams
read_patch_params qp = record {
  dry_run = is_some (lookup "dryRun" qp);
  force = is_some (lookup "force" qp);
  field_manager = as_text (lookup "fieldManager" qp);
  field_validation = as_directive (as_text (lookup "fieldValidation" qp));
}

reads_back :
    (field_validation : Option ValidationDirective) (field_manager : Option String)
    (dry_run force : Bool)
    → let p : PatchParams = record {
      dry_run = dry_run;
      force = force;
      field_manager = field_manager;
      field_validation = field_validation;
    } in
      read_patch_params (populate_qp p []) ≡ p
unfolding populate_qp
reads_back none field_manager dry_run force = ground arith
reads_back (some strict) field_manager dry_run force = ground arith
reads_back (some warn) field_manager dry_run force = ground arith
reads_back (some ignore) field_manager dry_run force = ground arith

-- A patch query carries every parameter.
pub read_patch_params-populate_qp : (p : PatchParams) → read_patch_params (populate_qp p []) ≡ p
read_patch_params-populate_qp p = reads_back p.field_validation p.field_manager p.dry_run p.force

abbrev pub fits : Option String → Bool
fits none = true
fits (some manager) = leb (len manager) 128

abbrev pub is_ok : {A B : Type 0} → Result A B → Bool
is_ok (ok b) = true
is_ok (err a) = false

-- The parameters of a patch call are accepted exactly if a field manager has 128 bytes at most, and
-- only an apply patch is forced.
pub validate-accepts :
    {T J : Type 0}
    → (p : PatchParams) (patch : Patch T J)
    → is_ok (validate p patch) ≡ (fits p.field_manager && (not p.force || is_apply patch))
unfolding validate
validate-accepts p patch = ground arith
