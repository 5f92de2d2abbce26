-- ===== src/Core/Roundtrip.antt =====
-- What the queries of kube-core/src/params.rs carry: the parameters can be read back from them.
use kube.Prelude.{
  ◌≡◌, ℕ, Option, none, some, [], ◌∷◌, String, ◌==◌, string_eq, if◌then◌else◌, arith, is_some,
}
use kube.Core.Query.{Query, QueryValue, text, number}
use kube.Core.ListParams.{
  ListParams, VersionMatch, not_older_than, exact, populate_qp as list_query,
}
use kube.Core.WatchParams.{WatchParams, populate_qp as watch_query, or_290}

-- The first value of a key.
abbrev pub lookup : String → Query → Option QueryValue
lookup key [] = none
lookup key ((k, v) ∷ qp) = if k == key then some v else lookup key qp

abbrev pub as_text : Option QueryValue → Option String
as_text (some (text s)) = some s
as_text (some _) = none
as_text none = none

abbrev as_number : Option QueryValue → Option ℕ
as_number (some (number n)) = some n
as_number (some _) = none
as_number none = none

abbrev as_match : Option String → Option VersionMatch
as_match none = none
as_match (some s) =
    if s == "NotOlderThan" then some not_older_than else if s == "Exact" then some exact else none

abbrev pub read_list_params : Query → ListParams
read_list_params qp = record {
  label_selector = as_text (lookup "labelSelector" qp);
  field_selector = as_text (lookup "fieldSelector" qp);
  timeout = as_number (lookup "timeoutSeconds" qp);
  limit = as_number (lookup "limit" qp);
  continue_token = as_text (lookup "continue" qp);
  version_match = as_match (as_text (lookup "resourceVersionMatch" qp));
  resource_version = as_text (lookup "resourceVersion" qp);
}

-- A list query carries every parameter but the timeout, which is lost.
pub read_list_params-populate_qp :
    (p : ListParams) → read_list_params (list_query p []) ≡ record p { timeout = none }
unfolding list_query
read_list_params-populate_qp p = ground arith

abbrev pub read_watch_params : Query → WatchParams
read_watch_params qp = record {
  label_selector = as_text (lookup "labelSelector" qp);
  field_selector = as_text (lookup "fieldSelector" qp);
  timeout = as_number (lookup "timeoutSeconds" qp);
  bookmarks = is_some (lookup "allowWatchBookmarks" qp);
}

-- A watch query carries every parameter, with the default timeout written out.
pub read_watch_params-populate_qp :
    (p : WatchParams)
    → read_watch_params (watch_query p []) ≡ record p { timeout = some (or_290 p.timeout) }
unfolding watch_query
read_watch_params-populate_qp p = ground arith
