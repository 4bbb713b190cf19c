-- ===== src/Controller/Safety/Passes.antt =====
-- internal/controller/reconcile.go: every operation that a pass starts is an allowed one.
use proxmox_actions_runners.Prelude.{
  ◌≡◌, sym, subst, inl, inr, int_eq, text_eq, List, [], Bool-cases,
}
use proxmox_actions_runners.Prelude.Lists.{All}
use proxmox_actions_runners.Prelude.Time.{Time}
use proxmox_actions_runners.Config.{Config}
use proxmox_actions_runners.Proxmox.{Vm}
use proxmox_actions_runners.Controller.State.{Controller, Op, is_busy, start_op, op_vmid}
use proxmox_actions_runners.Controller.RetireReason.{PassEnv}
use proxmox_actions_runners.Controller.Reconcile.{converge}
use proxmox_actions_runners.Controller.Safety.{Allowed}
use proxmox_actions_runners.Controller.Safety.Rule.{converge-keeps}

start_op-Allowed :
    (cfg : Config) (vms : List Vm) (op : Op) (c : Controller)
    → Allowed cfg vms op
    → All (Allowed cfg vms) c.started
    → All (Allowed cfg vms) (start_op op c).started
unfolding start_op
start_op-Allowed cfg vms op c a g = elim (Bool-cases (is_busy c (op_vmid op))) [
  | inl e ↦ rw e g
  | inr e ↦ rw e (a, g)
]

-- A pass that begins with nothing newly started starts only what is allowed: it retires only listed
-- VMs that are in the pool, tagged as managed, no template and in the workers' part of the VMID
-- range, it creates only from the newest template and under a VMID of that part that no listed VM
-- has, and it removes only listed templates of the pool other than the newest.
pub converge-Allowed :
    (env : PassEnv) (now : Time) (vms : List Vm) (c : Controller)
    → c.started ≡ []
    → All (Allowed c.cfg vms) (converge env now vms c).started
converge-Allowed env now vms c e =
    (converge-keeps env now vms c (λ busy started. All (Allowed c.cfg vms) started)
      (λ op d a f h. start_op-Allowed c.cfg vms op d a h)
      (subst (All (Allowed c.cfg vms)) (sym e) tt)).0
