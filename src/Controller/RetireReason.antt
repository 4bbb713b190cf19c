-- ===== src/Controller/RetireReason.antt =====
-- internal/controller/reconcile.go: whether a worker is retired, and why.
use proxmox_actions_runners.Prelude.{
  ℕ, suc, ℤ, ltb_ℤ, leb, ◌==◌, text_eq, int_eq, Bool, true, false, not, ◌||◌, ◌&&◌, Text, Option,
  none, some, is_some, if◌then◌else◌, codes, lookup, insert,
}
use proxmox_actions_runners.Prelude.Results.{Result, ok, err}
use proxmox_actions_runners.Prelude.Time.{Time, Duration, sub}
use proxmox_actions_runners.Config.Defaults.{default_max_lifetime}
use proxmox_actions_runners.Controller.ScaleSet.{ScaleSetState}
use proxmox_actions_runners.Controller.Naming.{Worker}
use proxmox_actions_runners.Controller.State.{
  Controller, Reason, older, powered_off, scale_set_removed, half_created, runner_gone,
}

abbrev pub max_runner_checks_per_pass : ℕ
max_runner_checks_per_pass = 10

-- What GitHub and the clock answer while a pass looks at the worker with a VMID: the runner with a
-- name, by its ID, if it is registered, and whether the pass's budget for lookups is used up.
pub record PassEnv : Type 0 where
  pub runner_by_name : ℤ → Text → Result Text (Option ℤ)
  pub budget_over : ℤ → Bool

-- A verdict on a worker, with the state it leaves. `none` keeps the worker.
pub record Verdict : Type 0 where
  pub after : Controller
  pub checks : ℕ
  pub reason : Option Reason
  pub force : Bool

abbrev pub keep : Controller → ℕ → Verdict
keep c checks = record { after = c; checks = checks; reason = none; force = false }

abbrev pub go : Controller → ℕ → Reason → Bool → Verdict
go c checks reason force = record {
  after = c;
  checks = checks;
  reason = some reason;
  force = force;
}

abbrev pub checked_recently : Duration → Time → Option Time → Bool
checked_recently every now none = false
checked_recently every now (some last) = ltb_ℤ (sub now last) every

unfoldable pub runner_check_due : ℤ → Time → Controller → Controller × Bool
runner_check_due vmid now c =
    if checked_recently c.runner_check_every now (lookup vmid c.last_runner_check)
    then (c, false)
    else (record c { last_runner_check = insert vmid now c.last_runner_check }, true)

abbrev pub looked_up : Controller → ℕ → Result Text (Option ℤ) → Verdict
looked_up c checks (err e) = keep c checks
looked_up c checks (ok none) = go c checks runner_gone false
looked_up c checks (ok (some id)) = keep c checks

-- The last part: a ready, running worker of a configured scale set.
unfoldable pub check_runner : PassEnv → Worker → Duration → Time → ℕ → Controller → Verdict
check_runner env w age now checks c =
    if ltb_ℤ age c.runner_check_after
      || (leb max_runner_checks_per_pass checks || env.budget_over w.vm.vmid)
    then keep c checks
    else let (c', due) = runner_check_due w.vm.vmid now c in
      if not due
      then keep c' checks
      else looked_up c' (suc checks) (env.runner_by_name w.vm.vmid w.name)

abbrev pub max_lifetime_of : Option ScaleSetState → Duration
max_lifetime_of none = default_max_lifetime
max_lifetime_of (some s) = s.cfg.max_lifetime

abbrev pub stopped : Text
stopped = codes "stopped"

abbrev pub running : Text
running = codes "running"

-- The third case: the scale set is gone from the config, or the worker is not ready.
unfoldable pub unwanted : Bool → Worker → Time → ℕ → Controller → Verdict
unwanted configured w now checks c =
    let (c', due) = runner_check_due w.vm.vmid now c in
    if not due
    then keep c' checks
    else if not configured
    then go c' checks scale_set_removed false
    else go c' checks half_created false

unfoldable pub retire_reason :
    PassEnv → Option ScaleSetState → Worker → Time → ℕ → Controller → Verdict
retire_reason env s w now checks c =
    let age = sub now w.created in
    if ltb_ℤ (max_lifetime_of s) age
    then go c checks older true
    else if w.vm.status == stopped && w.ready
    then go c checks powered_off true
    else if not (is_some s) || not w.ready
    then unwanted (is_some s) w now checks c
    else if not (w.vm.status == running)
    then keep c checks
    else check_runner env w age now checks c
