-- ===== src/Core/PatchParams.antt =====
-- kube-core/src/params.rs: the parameters of get, post and patch calls. What a patch carries is not
-- looked at: `T` is the type of objects, `J` that of JSON patches.
use kube.Prelude.{
  Bool, true, false, not, ◌&&◌, Option, none, some, [], ◌∷◌, ◌++◌, String, Result, ok, err, ltb,
  if◌then◌else◌, ◌>>=◌,
}
use Prim.Native.String.{len}
use kube.Core.Query.{ValidationError, text, Query, append_text}

pub record GetParams : Type 0 where
  pub resource_version : Option String

unfoldable pub at : String → GetParams
at resource_version = record { resource_version = some resource_version }

unfoldable pub any : GetParams
unfolding at
any = at "0"

pub data ValidationDirective : Type 0 where
  strict warn ignore : ValidationDirective

abbrev pub as_str : ValidationDirective → String
as_str strict = "Strict"
as_str warn = "Warn"
as_str ignore = "Ignore"

pub record PostParams : Type 0 where
  pub dry_run : Bool
  pub field_manager : Option String

-- A pair that is there if the flag is set.
abbrev append_if : Bool → String → String → Query → Query
append_if true key value qp = qp ++ ((key, text value) ∷ [])
append_if false key value qp = qp

unfoldable pub populate_post_qp : PostParams → Query → Query
populate_post_qp p qp =
    append_text "fieldManager" p.field_manager (append_if p.dry_run "dryRun" "All" qp)

-- A field manager has 128 bytes at most.
abbrev check_manager : String → Option String → Result ValidationError (Unit {0})
check_manager message none = ok tt
check_manager message (some field_manager) =
    if ltb 128 (len field_manager) then err (ValidationError.validation message) else ok tt

unfoldable pub validate_post : PostParams → Result ValidationError (Unit {0})
validate_post p = check_manager "Failed to validate PostParams::field_manager!" p.field_manager

pub data Patch (T J : Type 0) : Type 0 where
  apply merge strategic : T → Patch T J
  json : J → Patch T J

module _ {T J : Type 0} where
  unfoldable pub is_apply : Patch T J → Bool
  is_apply (apply x) = true
  is_apply (json x) = false
  is_apply (merge x) = false
  is_apply (strategic x) = false

  unfoldable pub content_type : Patch T J → String
  content_type (apply x) = "application/apply-patch+yaml"
  content_type (json x) = "application/json-patch+json"
  content_type (merge x) = "application/merge-patch+json"
  content_type (strategic x) = "application/strategic-merge-patch+json"

pub record PatchParams : Type 0 where
  pub dry_run : Bool
  pub force : Bool
  pub field_manager : Option String
  pub field_validation : Option ValidationDirective

abbrev check_force : Bool → Result ValidationError (Unit {0})
check_force true =
    err (ValidationError.validation "PatchParams::force only works with Patch::Apply")
check_force false = ok tt

unfoldable pub validate :
    {T J : Type 0} → PatchParams → Patch T J → Result ValidationError (Unit {0})
unfolding is_apply
validate p patch = do
  _ ← check_manager "Failed to validate PatchParams::field_manager!" p.field_manager
  check_force (p.force && not (is_apply patch))

abbrev append_validation : Option ValidationDirective → Query → Query
append_validation none qp = qp
append_validation (some vd) qp = append_text "fieldValidation" (some (as_str vd)) qp

unfoldable pub populate_qp : PatchParams → Query → Query
populate_qp p qp = append_validation p.field_validation (
    append_text "fieldManager" p.field_manager
      (append_if p.force "force" "true" (append_if p.dry_run "dryRun" "All" qp)))

-- `PatchParams::apply`.
unfoldable pub for_apply : String → PatchParams
for_apply manager = record {
  dry_run = false;
  force = false;
  field_manager = some manager;
  field_validation = none;
}

unfoldable pub force : PatchParams → PatchParams
force p = record p { force = true }

unfoldable pub dry_run : PatchParams → PatchParams
dry_run p = record p { dry_run = true }

unfoldable pub validation : ValidationDirective → PatchParams → PatchParams
validation vd p = record p { field_validation = some vd }

unfoldable pub validation_ignore : PatchParams → PatchParams
unfolding validation
validation_ignore p = validation ignore p

unfoldable pub validation_warn : PatchParams → PatchParams
unfolding validation
validation_warn p = validation warn p

unfoldable pub validation_strict : PatchParams → PatchParams
unfolding validation
validation_strict p = validation strict p
