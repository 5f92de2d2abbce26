-- ===== src/Core/ListParams.antt =====
-- kube-core/src/params.rs: the parameters of list calls.
use kube.Prelude.{
  ℕ, Option, none, some, [], ◌∷◌, ◌++◌, String, Result, ok, err, ◌==◌, if◌then◌else◌, string_eq,
}
use kube.Core.Query.{ValidationError, validation, text, Query, append_text, append_number}

pub data VersionMatch : Type 0 where
  not_older_than exact : VersionMatch

pub record ListParams : Type 0 where
  pub label_selector : Option String
  pub field_selector : Option String
  pub timeout : Option ℕ
  pub limit : Option ℕ
  pub continue_token : Option String
  pub version_match : Option VersionMatch
  pub resource_version : Option String

abbrev pub default : ListParams
default = record {
  label_selector = none;
  field_selector = none;
  timeout = none;
  limit = none;
  continue_token = none;
  version_match = none;
  resource_version = none;
}

abbrev check : Option String → Option VersionMatch → Result ValidationError (Unit {0})
check (some rv) (some exact) =
    if rv == "0"
    then err (validation "A non-zero resource_version is required when using an Exact match")
    else ok tt
check (some rv) (some not_older_than) = ok tt
check (some rv) none = ok tt
check none (some version_match) =
    err (validation "A resource_version is required when using an explicit match")
check none none = ok tt

unfoldable pub validate : ListParams → Result ValidationError (Unit {0})
validate p = check p.resource_version p.version_match

abbrev append_match : Option VersionMatch → Query → Query
append_match none qp = qp
append_match (some not_older_than) qp = qp ++ (("resourceVersionMatch", text "NotOlderThan") ∷ [])
append_match (some exact) qp = qp ++ (("resourceVersionMatch", text "Exact") ∷ [])

unfoldable pub populate_qp : ListParams → Query → Query
populate_qp p qp = append_match p.version_match (
    append_text "resourceVersion" p.resource_version (
      append_text "continue" p.continue_token (
        append_number "limit" p.limit (
          append_text "labelSelector" p.label_selector
            (append_text "fieldSelector" p.field_selector qp)))))

unfoldable pub timeout : ℕ → ListParams → ListParams
timeout timeout_secs p = record p { timeout = some timeout_secs }

unfoldable pub fields : String → ListParams → ListParams
fields field_selector p = record p { field_selector = some field_selector }

unfoldable pub labels : String → ListParams → ListParams
labels label_selector p = record p { label_selector = some label_selector }

unfoldable pub limit : ℕ → ListParams → ListParams
limit n p = record p { limit = some n }

unfoldable pub continue_token : String → ListParams → ListParams
continue_token token p = record p { continue_token = some token }

unfoldable pub at : String → ListParams → ListParams
at resource_version p = record p { resource_version = some resource_version }

unfoldable pub matching : VersionMatch → ListParams → ListParams
matching version_match p = record p { version_match = some version_match }

unfoldable pub match_any : ListParams → ListParams
unfolding at matching
match_any p = at "0" (matching not_older_than p)
