-- ===== src/Examples/Requesting.antt =====
-- Inputs for the theorems about kube-core/src/request.rs: bodies are texts, and every request is built.
use kube.Prelude.{true, ℕ, ◌≡◌, refl, false, not, none, some, List, [], ◌∷◌, String, ok}
use kube.Core.Subresource.{validate_ports}
use kube.Core.Subresource.Ports.{PortsChecked, validate_ports-PortsChecked}
use kube.Core.PatchParams.{merge}
use kube.Core.Resource.{url_path}
use kube.Core.Request.{Request, Codec}
use kube.Core.Request.Checks.{
  Call, patch_subresource_call, is_accepted, is_invalid, perform, perform-is_accepted,
}
use kube.Core.Request.Target.{target, is_path, method_of, Reaches, perform-Reaches}
use kube.Examples.Calling.{forced}
use kube.Examples.Watching.{pods}

abbrev texts : Codec String String String
texts = record {
  empty_body = "";
  serialize = λ p. ok "{}";
  serialize_delete = λ dp. ok "{}";
  refuses = λ req. none;
}

abbrev pods_request : Request
pods_request = record { url_path = url_path pods "Pod" (some "b") }

-- A forced merge patch of a status, which is refused.
abbrev forced_merge : Call String String String
forced_merge = patch_subresource_call "status" "a" forced (merge "{}")

perform-is_accepted_example :
    is_invalid (perform texts pods_request forced_merge) ≡ not (is_accepted forced_merge)
perform-is_accepted_example = perform-is_accepted texts pods_request forced_merge

abbrev unforced_merge : Call String String String
unforced_merge = patch_subresource_call "status" "a" (record forced { force = false }) (merge "{}")

pods_whole : is_path pods_request.url_path ≡ true
unfolding url_path
pods_whole = refl

perform-Reaches_example :
    Reaches texts pods_request pods_whole
      (target unforced_merge)
      (method_of unforced_merge)
      (perform texts pods_request unforced_merge)
perform-Reaches_example = perform-Reaches texts pods_request pods_whole unforced_merge refl

pods_path : url_path pods "Pod" (some "b") ≡ "/api/v1/namespaces/b/pods"
unfolding url_path
pods_path = refl

abbrev ports : List ℕ
ports = 80 ∷ 443 ∷ 80 ∷ []

validate_ports-PortsChecked_example : PortsChecked ports (validate_ports ports)
validate_ports-PortsChecked_example = validate_ports-PortsChecked ports
