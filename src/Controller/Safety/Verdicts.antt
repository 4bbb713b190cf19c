-- ===== src/Controller/Safety/Verdicts.antt =====
-- internal/controller/reconcile.go: when `retireReason` retires a worker, and what it leaves alone.
use proxmox_actions_runners.Prelude.{
  ℕ, ◌<◌, ◌≡◌, ◌<ℤ◌, Bool, true, false, text_eq, text_beq_iff, Option, none, some, is_some, arith,
}
use proxmox_actions_runners.Prelude.Results.{ok}
use proxmox_actions_runners.Prelude.Time.{Time, sub}
use proxmox_actions_runners.Controller.ScaleSet.{ScaleSetState}
use proxmox_actions_runners.Controller.Naming.{Worker}
use proxmox_actions_runners.Controller.State.{
  Controller, Reason, older, powered_off, scale_set_removed, half_created, runner_gone, too_many,
}
use proxmox_actions_runners.Controller.RetireReason.{
  PassEnv, max_runner_checks_per_pass, runner_check_due, check_runner, max_lifetime_of, stopped,
  running, unwanted, retire_reason,
}

-- What holds of a worker that is retired for a reason, by force or not.
abbrev pub Justified : PassEnv → Option ScaleSetState → Worker → Time → ℕ → Reason → Bool → Type 0
Justified env s w now checks older force = (force ≡ true) × (max_lifetime_of s <ℤ sub now w.created)
Justified env s w now checks powered_off force =
    (force ≡ true) × (w.vm.status ≡ stopped) × (w.ready ≡ true)
Justified env s w now checks scale_set_removed force = (force ≡ false) × (s ≡ none)
Justified env s w now checks half_created force =
    (force ≡ false) × (is_some s ≡ true) × (w.ready ≡ false)
Justified env s w now checks runner_gone force =
    (force ≡ false)
    × (is_some s ≡ true)
    × (w.ready ≡ true)
    × (w.vm.status ≡ running)
    × (checks < max_runner_checks_per_pass)
    × (env.runner_by_name w.vm.vmid w.name ≡ ok none)
Justified env s w now checks too_many force = ⊥

-- A worker that is retired gives cause for it: it is older than its lifetime or a ready one that is
-- powered off, which alone is retired by force; or its scale set is not configured; or it is not ready;
-- or it is a ready, running one whose runner GitHub, asked within the pass's limit, does not know.
pub retire_reason-Justified :
    (env : PassEnv) (s : Option ScaleSetState) (w : Worker) (now : Time) (checks : ℕ)
    (c : Controller) (r : Reason)
    → (retire_reason env s w now checks c).reason ≡ some r
    → Justified env s w now checks r (retire_reason env s w now checks c).force
unfolding retire_reason check_runner unwanted runner_check_due
retire_reason-Justified env s w now checks c older h =
    ground (arith, text_beq_iff w.vm.status stopped, text_beq_iff w.vm.status running)
retire_reason-Justified env s w now checks c _ h =
    ground (arith, text_beq_iff w.vm.status stopped, text_beq_iff w.vm.status running)

-- Looking at a worker changes nothing of the controller but when its runner was last looked up.
pub retire_reason-frame :
    (env : PassEnv) (s : Option ScaleSetState) (w : Worker) (now : Time) (checks : ℕ)
    (c : Controller)
    → let c' = (retire_reason env s w now checks c).after in
      c' ≡ record c { last_runner_check = c'.last_runner_check }
unfolding retire_reason check_runner unwanted runner_check_due
retire_reason-frame env s w now checks c = ground arith
