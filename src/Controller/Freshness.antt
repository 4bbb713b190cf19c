-- ===== src/Controller/Freshness.antt =====
-- internal/controller/freshness.go: comparing the template's runner with the latest release.
use proxmox_actions_runners.Prelude.{[], ◌∷◌, Text, Option, none, some, get_or, if◌then◌else◌}
use proxmox_actions_runners.Prelude.Results.{Result, ok, err}
use proxmox_actions_runners.Prelude.Time.{Time, Duration, add, before, hours}
use proxmox_actions_runners.GitHub.RunnerRelease.{
  RunnerRelease, current, behind, behind_warn, behind_error, staleness,
}
use proxmox_actions_runners.Proxmox.{Vm}
use proxmox_actions_runners.VmTags
use proxmox_actions_runners.Controller.State.{Controller}

abbrev pub runner_check_interval : Duration
runner_check_interval = hours 6

abbrev pub runner_check_retry : Duration
runner_check_retry = hours 1

-- A check is started in the background, and further ones are held off until it ends.
unfoldable pub check_runner_freshness : Option Vm → Time → Controller → Controller
check_runner_freshness none now c = c
check_runner_freshness (some template) now c =
    if before now c.next_runner_check then c else record c {
      next_runner_check = add now runner_check_retry;
      comparisons = (template, now) ∷ c.comparisons;
    }

pub data Level : Type 0 where
  info warn error : Level

unfoldable pub runner_freshness : Text → RunnerRelease → Time → Option Level
runner_freshness have latest now = elim (staleness latest have now) [
  | current ↦ none
  | behind_error ↦ some error
  | behind_warn ↦ some warn
  | behind ↦ some info
]

-- When to look again, and how loudly the template's runner is reported, if it is. GitHub's answer is
-- an argument.
unfoldable pub compare_runner : Result Text RunnerRelease → Vm → Time → Time × Option Level
compare_runner (err e) template now = (add now runner_check_retry, none)
compare_runner (ok latest) template now = (
  add now runner_check_interval,
  runner_freshness (get_or (VmTags.string template VmTags.runner_version_prefix) []) latest now,
)

-- The end of a check in the background.
unfoldable pub end_comparison : Time → Controller → Controller
end_comparison next c = record c { next_runner_check = next }
