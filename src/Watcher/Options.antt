-- ===== src/Watcher/Options.antt =====
-- The options of kube-runtime/src/watcher.rs, and the parameters of the calls that they become.
use kube.Prelude.{ℕ, Bool, true, false, Option, none, some, String}
use kube.Core.ListParams.{ListParams, VersionMatch, not_older_than}
use kube.Core.WatchParams.{WatchParams}

pub data ListSemantic : Type 0 where
  most_recent any : ListSemantic

pub record Config : Type 0 where
  pub label_selector : Option String
  pub field_selector : Option String
  pub timeout : Option ℕ
  pub list_semantic : ListSemantic
  pub bookmarks : Bool

abbrev pub default : Config
default = record {
  label_selector = none;
  field_selector = none;
  timeout = none;
  list_semantic = most_recent;
  bookmarks = true;
}

unfoldable pub timeout : ℕ → Config → Config
timeout timeout_secs c = record c { timeout = some timeout_secs }

unfoldable pub fields : String → Config → Config
fields field_selector c = record c { field_selector = some field_selector }

unfoldable pub labels : String → Config → Config
labels label_selector c = record c { label_selector = some label_selector }

unfoldable pub list_semantic : ListSemantic → Config → Config
list_semantic semantic c = record c { list_semantic = semantic }

unfoldable pub any_semantic : Config → Config
unfolding list_semantic
any_semantic c = list_semantic any c

unfoldable pub disable_bookmarks : Config → Config
disable_bookmarks c = record c { bookmarks = false }

abbrev semantic_version : ListSemantic → Option String
semantic_version any = some "0"
semantic_version most_recent = none

abbrev semantic_match : ListSemantic → Option VersionMatch
semantic_match any = some not_older_than
semantic_match most_recent = none

unfoldable pub to_list_params : Config → ListParams
to_list_params c = record {
  label_selector = c.label_selector;
  field_selector = c.field_selector;
  timeout = c.timeout;
  version_match = semantic_match c.list_semantic;
  resource_version = semantic_version c.list_semantic;
  limit = none;
  continue_token = none;
}

unfoldable pub to_watch_params : Config → WatchParams
to_watch_params c = record {
  label_selector = c.label_selector;
  field_selector = c.field_selector;
  timeout = c.timeout;
  bookmarks = c.bookmarks;
}
