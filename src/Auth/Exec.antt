-- ===== src/Auth/Exec.antt =====
-- `auth_exec` of kube-client/src/client/auth/mod.rs: a plugin that gives credentials.
use kube.Prelude.{
  ℕ, Bool, true, false, Option, none, some, List, [], ◌∷◌, ◌++◌, map, String, string_eq,
  if◌then◌else◌, Result, ok, err, ◌>>=◌,
}
use kube.Prelude.HashMap
use kube.Prelude.HashMap.{HashMap}
use kube.Config.Kubeconfig.{ExecConfig, ExecInteractiveMode, never, if_available, always}
use kube.Config.Files.{map_err}
use kube.Auth.Sources.{
  Sources, Error, Command, EnvChange, env, env_remove, inherit, piped, ExecCredential,
  missing_command, auth_exec_serialize, auth_exec_start, auth_exec_run, auth_exec_parse,
}

-- A list that need not be there.
abbrev pub listed {ℓ} : {A : Type ℓ} → Option (List A) → List A
listed none = []
listed (some as_list) = as_list

abbrev variable : Option String → Option String → List EnvChange
variable (some name) (some value) = env name value ∷ []
variable (some name) none = []
variable none value = []

-- The pairs that have a name and a value.
abbrev pub variables : List (HashMap String String) → List EnvChange
unfolding HashMap.get
variables [] = []
variables (e ∷ es) = variable (HashMap.get e "name") (HashMap.get e "value") ++ variables es

abbrev pub is_interactive : Option ExecInteractiveMode → Bool
is_interactive (some never) = false
is_interactive (some if_available) = true
is_interactive (some always) = true
is_interactive none = true

-- What the plugin is told.
abbrev pub exec_info : ExecConfig → ExecCredential
exec_info auth = record {
  kind = none;
  api_version = auth.api_version;
  spec = some (record { interactive = some (is_interactive auth.interactive_mode) });
  status = none;
}

abbrev pub command_of : ExecConfig → String → String → Command
command_of auth cmd info = record {
  program = cmd;
  args = listed auth.args;
  envs =
      variables (listed auth.env)
      ++ (env "KUBERNETES_EXEC_INFO" info ∷ map env_remove (listed auth.drop_env));
  stdin = if is_interactive auth.interactive_mode then inherit else piped;
}

module _ (s : Sources) where
  abbrev program_of : Option String → Result (Error s) String
  program_of none = err missing_command
  program_of (some cmd) = ok cmd

  unfoldable pub auth_exec : ℕ → ExecConfig → Result (Error s) ExecCredential
  auth_exec now auth = do
    cmd ← program_of auth.command
    info ← map_err auth_exec_serialize (s.to_string (exec_info auth))
    let command = command_of auth cmd info
    out ← map_err auth_exec_start (s.run now command)
    if s.success out
        then map_err auth_exec_parse (s.parse_credential (s.stdout out))
        else err (auth_exec_run (s.show_command command) out)
