-- ===== src/Examples/Calling.antt =====
-- Inputs for the theorems about kube-core/src/params.rs.
use kube.Prelude.{◌≡◌, none, some, true, []}
use kube.Core.ListParams.{ListParams, not_older_than, populate_qp}
use kube.Core.PatchParams.{PatchParams, strict}
use kube.Core.Roundtrip.{read_list_params, read_list_params-populate_qp}

abbrev page : ListParams
page = record {
  label_selector = some "app=blog";
  field_selector = none;
  timeout = some 10;
  limit = some 50;
  continue_token = some "next";
  version_match = some not_older_than;
  resource_version = some "7";
}

read_list_params-populate_qp_example :
    read_list_params (populate_qp page []) ≡ record page { timeout = none }
read_list_params-populate_qp_example = read_list_params-populate_qp page

abbrev pub forced : PatchParams
forced = record {
  dry_run = true;
  force = true;
  field_manager = some "us";
  field_validation = some strict;
}
