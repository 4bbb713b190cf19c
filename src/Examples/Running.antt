-- ===== src/Examples/Running.antt =====
-- `Run` at a concrete configuration.
use mathlib.Core.List.{Permᴰ}
use proxmox_actions_runners.Prelude.{
  ◌++◌, text_beq, has_prefix, cut_prefix, lookup, insert, ℤ, ◌≤◌, arith, ap, pos_part, ◌≡◌, refl,
  true, List, [], ◌∷◌, none, some, codes, int_eq, Text, if◌then◌else◌,
}
use proxmox_actions_runners.Prelude.Lists.{length}
use proxmox_actions_runners.Prelude.Results.{ok}
use proxmox_actions_runners.Prelude.Time.{hours}
use proxmox_actions_runners.Prelude.Int.{pos, ◌-ℤ◌}
use proxmox_actions_runners.Proxmox.{Vm, has_tag}
use proxmox_actions_runners.GitHub.ScaleSets.{ScaleSetSpec}
use proxmox_actions_runners.Controller.ScaleSet.{ScaleSetState, new_scale_set_state, target}
use proxmox_actions_runners.Controller.State.{
  Op, new_scale_sets, start_op, is_busy, Controller, Options, new, with_config, retire,
  half_created,
}
use proxmox_actions_runners.Controller.Register
use proxmox_actions_runners.Controller.Register.{Surroundings, register_scale_sets}
use proxmox_actions_runners.Controller.Worker.{St, run_retire}
use proxmox_actions_runners.Controller.Reconcile.{
  reconcile, converge, scale_all, check_all, retire_strays,
}
use proxmox_actions_runners.Controller.Status.{count_workers}
use proxmox_actions_runners.Controller.Observe.{observe, observe_loop, observe_vm, is_ignored}
use proxmox_actions_runners.Controller.Freshness.{check_runner_freshness}
use proxmox_actions_runners.Controller.Naming.{parse_worker, read_tag, read_tags}
use proxmox_actions_runners.Controller.Prune.{prune_templates}
use proxmox_actions_runners.Controller.Scale.{scale}
use proxmox_actions_runners.VmTags.{newest_template, newest_loop, is_template}
use proxmox_actions_runners.Config.Range.{contains, workers}
use proxmox_actions_runners.Controller.Run
use proxmox_actions_runners.Controller.Run.{
  System, Phase, Reach, start, later, Step, run, passed, in_flight,
}
use proxmox_actions_runners.Controller.Run.Invariant.{count, parallelism_of, Reach-Exclusive}
use proxmox_actions_runners.Controller.Run.Stopping.{Steps, Steps-leaving, is_leaving}
use proxmox_actions_runners.Examples.Fleet.{linux_set, cfg, env, worker_vm, world}

abbrev pub options : Options
options = record {
  config = some cfg;
  has_proxmox = true;
  has_github = true;
  resync_interval = pos 0;
  boot_timeout = pos 0;
  runner_check_after = pos 0;
  runner_check_every = pos 0;
  parallelism = pos 0;
  retry_backoff = pos 0;
}

abbrev pub github : Surroundings Text
github = record {
  ensure_answer = λ events spec.
      ok (record { id = pos 7; name = spec.name; runner_group_id = pos 1; labels = spec.labels });
  wait_ends = λ events d. true;
}

abbrev pub controller : Controller
controller = with_config options cfg

pub made : new options ≡ ok controller
unfolding new
made = refl

abbrev pub registered : List (Text × ScaleSetState)
registered = (codes "linux", Register.with_id (pos 7) (new_scale_set_state linux_set)) ∷ []

abbrev pub spec : ScaleSetSpec
spec = Register.spec_of (new_scale_set_state linux_set)

pub asked :
    register_scale_sets github 1 controller.scale_sets []
    ≡ some (true, registered, Register.asked spec ∷ [])
unfolding register_scale_sets Register.register_one Register.and_rest new_scale_sets insert
    new_scale_set_state
asked = refl

-- A clone that was left half-created.
abbrev stray : Vm
stray = record worker_vm { tags = codes "par-managed" ∷ [] }

abbrev started : System
started = passed env (hours 1) (ok (stray ∷ [])) (run controller registered)

one_started :
    (started.waiting ≡ retire none stray [] true half_created ∷ []) × (started.ctrl.slots ≡ pos 3)
unfolding reconcile converge count_workers scale_all check_all observe observe_loop observe_vm
    is_ignored text_beq has_tag contains workers ◌-ℤ◌ retire_strays start_op is_busy
    check_runner_freshness parse_worker read_tag read_tags has_prefix cut_prefix lookup
    prune_templates newest_template newest_loop is_template scale target new_scale_set_state
one_started = (refl, refl)

abbrev one_working : System
one_working = record started { waiting = []; working = retire none stray [] true half_created ∷ [] }

one_working-reached : Reach world github options one_working
one_working-reached =
    later
      (later (start controller 1 (Register.asked spec ∷ []) registered made asked)
        (Run.pass env (hours 1) (ok (stray ∷ [])) refl))
      (Run.slot [] [] (retire none stray [] true half_created) one_started.0
        (omega (arith, ap pos_part one_started.1)))

Reach-Exclusive_example :
    ((id : ℤ) → count id (in_flight one_working) ≡ (if is_busy one_working.ctrl id then 1 else 0))
    × (length one_working.working ≤ pos_part (parallelism_of options))
Reach-Exclusive_example = Reach-Exclusive one_working-reached

-- The loop is left while the retirement works, and the retirement runs to its end.
abbrev closing : System
closing = record one_working { over = true; phase = Phase.closing }

abbrev retired : St
retired =
    (run_retire world none (pos 100) true [] true
      (record { ctrl = closing.ctrl; calls = closing.calls })).1

abbrev after_retirement : System
after_retirement = record (Run.released (retire none stray [] true half_created) retired closing) {
  working = [];
}

runs_on : Steps world closing after_retirement
unfolding text_beq
runs_on =
    Steps.later Steps.here
      (Run.finish [] [] (retire none stray [] true half_created) retired refl Run.retired)

Steps-leaving_example :
    (is_leaving after_retirement.phase ≡ true)
    × ((ended : List Op) × Permᴰ (in_flight closing) (ended ++ in_flight after_retirement))
Steps-leaving_example = Steps-leaving runs_on refl
