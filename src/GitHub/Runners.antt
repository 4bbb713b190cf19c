-- ===== src/GitHub/Runners.antt =====
-- internal/github/runners.go: the runners registered with GitHub. The answers of actions/scaleset are
-- parameters.
use proxmox_actions_runners.Prelude.{ℤ, Text, Option, none, some, if◌then◌else◌, codes, is_empty}
use proxmox_actions_runners.Prelude.Results.{Result, ok, err}

abbrev pub work_folder : Text
work_folder = codes "/home/runner/work"

abbrev pub redacted : Text
redacted = codes "[REDACTED]"

pub record JitConfig : Type 0 where
  pub runner_id : ℤ
  pub runner_name : Text
  pub encoded : Text

pub record Runner : Type 0 where
  pub id : ℤ
  pub name : Text

-- What is used of the library's types, and the kinds of error that it tells apart.
pub record RunnerReference : Type 0 where
  pub id : ℤ
  pub name : Text

pub record JitRunnerConfig : Type 0 where
  pub runner : Option RunnerReference
  pub encoded_jit_config : Text

pub data LibraryError : Type 0 where
  runner_not_found job_still_running : LibraryError
  other : Text → LibraryError

pub data RunnerError : Type 0 where
  generate_failed : Text → LibraryError → RunnerError
  no_config : Text → RunnerError
  find_failed : Text → LibraryError → RunnerError
  remove_failed : (id : ℤ) → LibraryError → RunnerError
  job_running : (id : ℤ) → RunnerError

unfoldable pub usable_config : Text → JitRunnerConfig → Result RunnerError JitConfig
usable_config name cfg = elim cfg.runner [
  | none ↦ err (no_config name)
  | some r ↦
      if is_empty cfg.encoded_jit_config
      then err (no_config name)
      else ok (record { runner_id = r.id; runner_name = r.name; encoded = cfg.encoded_jit_config })
]

-- `GenerateJITConfig`, of the library's answer.
unfoldable pub generate_jit_config :
    Text → Result LibraryError (Option JitRunnerConfig) → Result RunnerError JitConfig
generate_jit_config name (err e) = err (generate_failed name e)
generate_jit_config name (ok none) = err (no_config name)
generate_jit_config name (ok (some cfg)) = usable_config name cfg

abbrev pub to_runner : RunnerReference → Runner
to_runner r = record { id = r.id; name = r.name }

unfoldable pub runner_by_name :
    Text → Result LibraryError (Option RunnerReference) → Result RunnerError (Option Runner)
runner_by_name name (err e) = err (find_failed name e)
runner_by_name name (ok none) = ok none
runner_by_name name (ok (some r)) = ok (some (to_runner r))

unfoldable pub remove_runner : ℤ → Option LibraryError → Option RunnerError
remove_runner id none = none
remove_runner id (some runner_not_found) = none
remove_runner id (some job_still_running) = some (job_running id)
remove_runner id (some (other message)) = some (remove_failed id (other message))
