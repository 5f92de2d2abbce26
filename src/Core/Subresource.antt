-- ===== src/Core/Subresource.antt =====
-- kube-core/src/subresource.rs: requests of logs, evictions, remote commands and forwarded ports. The body
-- of an eviction is what serde_json makes of it.
pub mod Ports
use kube.Prelude.{
  ℕ, Bool, true, false, not, ◌&&◌, Option, none, some, List, [], ◌∷◌, ◌++◌, String, nat_eq, length,
  if◌then◌else◌, ltb, Result, ok, err, ◌>>=◌,
}
use kube.Prelude.HashSet
use kube.Core.Query.{
  ℤ, ValidationError, validation, repeated_port, Query, text, numbers, append_text, append_integer,
}
use kube.Core.DeleteParams.{DeleteParams}
use kube.Core.PatchParams.{PostParams, populate_post_qp, validate_post}
use kube.Core.Request.{
  Request, Codec, Built, post, checked, serialized, subresource_path, finish_request, read, write,
}

pub record LogParams : Type 0 where
  pub container : Option String
  pub follow : Bool
  pub limit_bytes : Option ℤ
  pub pretty : Bool
  pub previous : Bool
  pub since_seconds : Option ℤ
  pub tail_lines : Option ℤ
  pub timestamps : Bool

abbrev pub append_flag : String → Bool → Query → Query
append_flag key true qp = qp ++ ((key, text "true") ∷ [])
append_flag key false qp = qp

unfoldable pub log_query : LogParams → Query
log_query lp = append_flag "timestamps" lp.timestamps (
    append_integer "tailLines" lp.tail_lines (
      append_integer "sinceSeconds" lp.since_seconds (
        append_flag "previous" lp.previous (
          append_flag "pretty" lp.pretty (
            append_integer "limitBytes" lp.limit_bytes
              (append_flag "follow" lp.follow (append_text "container" lp.container [])))))))

pub record EvictParams : Type 0 where
  pub delete_options : Option DeleteParams
  pub post_options : PostParams

pub record AttachParams : Type 0 where
  pub container : Option String
  pub stdin : Bool
  pub stdout : Bool
  pub stderr : Bool
  pub tty : Bool
  pub max_stdin_buf_size : Option ℕ
  pub max_stdout_buf_size : Option ℕ
  pub max_stderr_buf_size : Option ℕ

abbrev pub default_attach : AttachParams
default_attach = record {
  container = none;
  stdin = false;
  stdout = true;
  stderr = true;
  tty = false;
  max_stdin_buf_size = none;
  max_stdout_buf_size = none;
  max_stderr_buf_size = none;
}

abbrev pub interactive_tty : AttachParams
interactive_tty = record default_attach { stdin = true; stdout = true; stderr = false; tty = true }

unfoldable pub validate_attach : AttachParams → Result ValidationError (Unit {0})
validate_attach ap =
    if not ap.stdin && not ap.stdout && not ap.stderr
    then err (validation "AttachParams: one of stdin, stdout, or stderr must be true")
    else if ap.stderr && ap.tty
    then err (validation "AttachParams: tty and stderr cannot both be true")
    else ok tt

unfoldable pub attach_query : AttachParams → Query
attach_query ap = append_text "container" ap.container (
    append_flag "tty" ap.tty (
      append_flag "stderr" ap.stderr
        (append_flag "stdout" ap.stdout (append_flag "stdin" ap.stdin []))))

abbrev pub commands : List String → Query
commands [] = []
commands (c ∷ cs) = ("command", text c) ∷ commands cs

-- The loop over the ports, with those that were seen.
abbrev pub unique_from : List ℕ → List ℕ → Result ValidationError (Unit {0})
unfolding HashSet.contains HashSet.insert
unique_from seen [] = ok tt
unique_from seen (port ∷ ports) =
    let rest = unique_from (HashSet.insert port seen) ports in
    if HashSet.contains seen port then err (repeated_port port) else rest

unfoldable pub validate_ports : List ℕ → Result ValidationError (Unit {0})
unfolding HashSet.contains HashSet.insert
validate_ports [] = err (validation "ports cannot be empty")
validate_ports (port ∷ []) = ok tt
validate_ports (port ∷ other ∷ ports) =
    if ltb 128 (length (port ∷ other ∷ ports))
    then err (validation "the number of ports cannot be more than 128")
    else unique_from [] (port ∷ other ∷ ports)

module _ {T J Body : Type 0} (c : Codec T J Body) where
  unfoldable pub logs : Request → String → LogParams → Built c
  unfolding log_query
  logs r name lp =
      finish_request c (read c (subresource_path r name "log") (some (log_query lp)) none none)

  unfoldable pub evict :
      (Option DeleteParams → String → Result String Body) → Request → String → EvictParams → Built c
  unfolding validate_post populate_post_qp
  evict serialize_eviction r name ep = do
    _ ← checked (validate_post ep.post_options)
    body ← serialized (serialize_eviction ep.delete_options name)
    finish_request c (
        write c post (subresource_path r name "eviction") (populate_post_qp ep.post_options [])
          body)

  unfoldable pub attach : Request → String → AttachParams → Built c
  unfolding validate_attach attach_query
  attach r name ap = do
    _ ← checked (validate_attach ap)
    finish_request c (read c (subresource_path r name "attach") (some (attach_query ap)) none none)

  unfoldable pub exec : Request → String → List String → AttachParams → Built c
  unfolding validate_attach attach_query
  exec r name command ap = do
    _ ← checked (validate_attach ap)
    finish_request c (
        read c (subresource_path r name "exec") (some (attach_query ap ++ commands command)) none
          none)

  unfoldable pub portforward : Request → String → List ℕ → Built c
  unfolding validate_ports
  portforward r name ports = do
    _ ← checked (validate_ports ports)
    finish_request c (
        read c (subresource_path r name "portforward") (some (("ports", numbers ports) ∷ [])) none
          none)
