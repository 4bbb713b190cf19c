-- ===== src/Controller/Reconcile.antt =====
-- internal/controller/reconcile.go: one pass.
use proxmox_actions_runners.Prelude.{
  ℕ, true, List, [], ◌∷◌, Text, Option, none, some, if◌then◌else◌, lookup, text_eq,
}
use proxmox_actions_runners.Prelude.Results.{Result, ok, err}
use proxmox_actions_runners.Prelude.Time.{Time}
use proxmox_actions_runners.Proxmox.{Vm}
use proxmox_actions_runners.Controller.ScaleSet.{ScaleSetState}
use proxmox_actions_runners.Controller.Naming.{Worker}
use proxmox_actions_runners.Controller.Observe.{View, observe}
use proxmox_actions_runners.Controller.Prune.{prune_templates}
use proxmox_actions_runners.Controller.RetireReason.{PassEnv, Verdict, retire_reason}
use proxmox_actions_runners.Controller.Scale.{Pass, scale}
use proxmox_actions_runners.Controller.Freshness.{check_runner_freshness}
use proxmox_actions_runners.Controller.Status.{count_workers}
use proxmox_actions_runners.Controller.State.{Controller, retire, half_created, is_busy, start_op}

unfoldable pub retire_strays : List Vm → Controller → Controller
retire_strays [] c = c
retire_strays (vm ∷ vms) c = retire_strays vms (start_op (retire none vm [] true half_created) c)

-- The controller and how many runners the pass has looked up.
pub record Checked : Type 0 where
  pub ctrl : Controller
  pub checks : ℕ

abbrev pub configured_name : Option ScaleSetState → Option Text
configured_name none = none
configured_name (some s) = some s.cfg.name

abbrev pub apply_verdict : Option ScaleSetState → Worker → Verdict → Checked
apply_verdict s w v = elim v.reason [
  | none ↦ record { ctrl = v.after; checks = v.checks }
  | some reason ↦ record {
    ctrl = start_op (retire (configured_name s) w.vm w.name v.force reason) v.after;
    checks = v.checks;
  }
]

unfoldable pub check_worker : PassEnv → Option ScaleSetState → Time → Worker → Checked → Checked
check_worker env s now w k =
    if is_busy k.ctrl w.vm.vmid
    then k
    else apply_verdict s w (retire_reason env s w now k.checks k.ctrl)

unfoldable pub check_workers :
    PassEnv → Option ScaleSetState → Time → List Worker → Checked → Checked
check_workers env s now [] k = k
check_workers env s now (w ∷ ws) k = check_workers env s now ws (check_worker env s now w k)

unfoldable pub check_all : PassEnv → Time → List (Text × List Worker) → Checked → Checked
check_all env now [] k = k
check_all env now ((name, ws) ∷ m) k =
    check_all env now m (check_workers env (lookup name k.ctrl.scale_sets) now ws k)

unfoldable pub scale_all : List (Text × ScaleSetState) → View → Time → Pass → Pass
scale_all [] v now p = p
scale_all ((name, s) ∷ m) v now p = scale_all m v now (scale s v now p)

-- The part of `reconcile` after the listing, in the order of the source.
unfoldable pub converge : PassEnv → Time → List Vm → Controller → Controller
converge env now vms c =
    let v = observe c.cfg vms in
    let pruned = prune_templates vms v.template c in
    let compared = check_runner_freshness v.template now pruned in
    let swept = retire_strays v.strays compared in
    let checked = check_all env now v.workers (record { ctrl = swept; checks = 0 }) in
    let scaled =
      scale_all checked.ctrl.scale_sets v now (record { used = v.used; ctrl = checked.ctrl }) in
    count_workers v scaled.ctrl

-- `reconcile`
unfoldable pub reconcile :
    PassEnv → Time → Result Text (List Vm) → Controller → Controller × Option Text
reconcile env now (err e) c = (c, some e)
reconcile env now (ok vms) c = (converge env now vms c, none)
