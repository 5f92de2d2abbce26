-- ===== src/Core/WatchParams.antt =====
-- kube-core/src/params.rs: the parameters of watch calls.
use kube.Prelude.{
  ℕ, Bool, true, false, Option, none, some, [], ◌∷◌, ◌++◌, String, Result, ok, err, leb,
  if◌then◌else◌, string_eq,
}
use kube.Core.Query.{ValidationError, validation, text, Query, append_text, append_number}

pub record WatchParams : Type 0 where
  pub label_selector : Option String
  pub field_selector : Option String
  pub timeout : Option ℕ
  pub bookmarks : Bool

abbrev pub default : WatchParams
default = record { label_selector = none; field_selector = none; timeout = none; bookmarks = true }

abbrev check : Option ℕ → Result ValidationError (Unit {0})
check none = ok tt
check (some to) =
    if leb 295 to then err (validation "WatchParams::timeout must be < 295s") else ok tt

unfoldable pub validate : WatchParams → Result ValidationError (Unit {0})
validate p = check p.timeout

abbrev pub or_290 : Option ℕ → ℕ
or_290 none = 290
or_290 (some to) = to

abbrev append_bookmarks : Bool → Query → Query
append_bookmarks true qp = qp ++ (("allowWatchBookmarks", text "true") ∷ [])
append_bookmarks false qp = qp

unfoldable pub populate_qp : WatchParams → Query → Query
populate_qp p qp = append_bookmarks p.bookmarks (
    append_text "labelSelector" p.label_selector (
      append_text "fieldSelector" p.field_selector (
        append_number "timeoutSeconds" (some (or_290 p.timeout))
          (append_text "watch" (some "true") qp))))

unfoldable pub timeout : ℕ → WatchParams → WatchParams
timeout timeout_secs p = record p { timeout = some timeout_secs }

unfoldable pub fields : String → WatchParams → WatchParams
fields field_selector p = record p { field_selector = some field_selector }

unfoldable pub labels : String → WatchParams → WatchParams
labels label_selector p = record p { label_selector = some label_selector }

unfoldable pub disable_bookmarks : WatchParams → WatchParams
disable_bookmarks p = record p { bookmarks = false }
