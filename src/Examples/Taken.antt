-- ===== src/Examples/Taken.antt =====
-- A creation whose VMID is taken at a concrete configuration.
use proxmox_actions_runners.Prelude.{
  ℤ, pos, pos_part, ap, arith, ◌≡◌, refl, true, [], ◌∷◌, some, codes, lookup, insert, int_eq,
  text_eq, text_beq, has_prefix, cut_prefix,
}
use proxmox_actions_runners.Prelude.Lists.{tally}
use proxmox_actions_runners.Prelude.Results.{ok}
use proxmox_actions_runners.Prelude.Time.{hours}
use proxmox_actions_runners.Prelude.Int.{◌-ℤ◌, ◌+ℤ◌, beq_ℤ, wrap64}
use proxmox_actions_runners.Config.Range.{contains, workers}
use proxmox_actions_runners.Proxmox.{Vm, has_tag}
use proxmox_actions_runners.Proxmox.Errors.{
  PveError, api, is_vmid_in_use, message_contains, contains_text,
}
use proxmox_actions_runners.Prelude.Number.{parse_int, parse_nat, parse_digits}
use proxmox_actions_runners.VmTags
use proxmox_actions_runners.VmTags.{newest_template, newest_loop, is_template}
use proxmox_actions_runners.Controller.ScaleSet.{
  ScaleSetState, new_scale_set_state, target, desired_runners, desired_target, can_create,
}
use proxmox_actions_runners.Controller.State.{
  create, start_op, is_busy, creating_for, creating_any, any_creation, count_ops,
}
use proxmox_actions_runners.Controller.Register
use proxmox_actions_runners.Controller.Observe.{observe, observe_loop, observe_vm, is_ignored}
use proxmox_actions_runners.Controller.Freshness.{check_runner_freshness}
use proxmox_actions_runners.Controller.Naming.{parse_worker, read_tag, read_tags}
use proxmox_actions_runners.Controller.Prune.{prune_templates, prune_loop, in_use}
use proxmox_actions_runners.Controller.Scale.{
  scale, allocate_vmid, first_free, create_loop, active_workers,
}
use proxmox_actions_runners.Controller.Status.{count_workers}
use proxmox_actions_runners.Controller.Reconcile.{
  reconcile, converge, scale_all, check_all, retire_strays,
}
use proxmox_actions_runners.Controller.Worker.{World, St, Outcome, clone, clone_taken, called}
use proxmox_actions_runners.Controller.Worker.Create
use proxmox_actions_runners.Controller.Worker.Create.{
  run_create, hold_off, mark_foreign, clone_options,
}
use proxmox_actions_runners.Controller.Worker.Creating.{plan_of}
use proxmox_actions_runners.Controller.Run
use proxmox_actions_runners.Controller.Run.{
  System, Phase, Reach, start, later, Step, run, passed, in_flight,
}
use proxmox_actions_runners.Controller.Run.Stopping.{Steps}
use proxmox_actions_runners.Controller.Run.Foreign.{is_foreign, creates}
use proxmox_actions_runners.Controller.Run.Taken.{taken-Barred}
use proxmox_actions_runners.Examples.Fleet.{linux_set, template_vm, env, world}
use proxmox_actions_runners.Examples.Running.{
  options, github, controller, registered, spec, made, asked,
}

abbrev taken : PveError
taken = api (pos 500) (codes "already exists on node")

taken-is_vmid_in_use : is_vmid_in_use taken ≡ true
unfolding is_vmid_in_use message_contains contains_text has_prefix cut_prefix
taken-is_vmid_in_use = refl

-- Every VMID is another pool's.
abbrev full_world : World
full_world = record world { clone_answer = λ h o. some taken }

-- GitHub has no jobs, and a pass starts a creation for the minimum of one runner.
abbrev begun : System
begun = run controller registered

abbrev told : System
told = record begun {
  ctrl =
      Run.handled (codes "linux") (Run.desired (pos 0))
        (lookup (codes "linux") begun.ctrl.scale_sets) begun.ctrl;
}

abbrev planned : System
planned = passed env (hours 1) (ok (template_vm ∷ [])) told

-- The scale set as GitHub's message left it.
abbrev linux_wanted : ScaleSetState
linux_wanted =
    (desired_runners (pos 0) (Register.with_id (pos 7) (new_scale_set_state linux_set))).0

one_planned :
    (planned.waiting ≡ create (codes "linux") template_vm (pos 100) ∷ [])
    × (planned.ctrl.slots ≡ pos 3)
    × (lookup (codes "linux") planned.ctrl.scale_sets ≡ some linux_wanted)
unfolding reconcile converge count_workers scale_all check_all observe observe_loop observe_vm
    is_ignored text_beq has_tag contains workers ◌-ℤ◌ retire_strays start_op is_busy
    check_runner_freshness parse_worker read_tag read_tags has_prefix cut_prefix lookup
    prune_templates newest_template newest_loop is_template scale target new_scale_set_state
    desired_runners desired_target insert allocate_vmid first_free create_loop creating_for
    creating_any any_creation count_ops active_workers can_create in_use prune_loop
    VmTags.first_value VmTags.int VmTags.string parse_int parse_nat parse_digits beq_ℤ wrap64 ◌+ℤ◌
one_planned = (refl, refl, refl)

abbrev creating : System
creating = record planned {
  waiting = [];
  working = create (codes "linux") template_vm (pos 100) ∷ [];
}

creating-reached : Reach full_world github options creating
creating-reached =
    later
      (later
        (later (start controller 1 (Register.asked spec ∷ []) registered made asked)
          (Run.message (codes "linux") (Run.desired (pos 0)) refl))
        (Run.pass env (hours 1) (ok (template_vm ∷ [])) refl))
      (Run.slot [] [] (create (codes "linux") template_vm (pos 100)) one_planned.0
        (omega (arith, ap pos_part one_planned.1)))

abbrev before : St
before = record { ctrl = creating.ctrl; calls = creating.calls }

-- The creation's end.
abbrev refusal : ScaleSetState → Vm → ℤ → St → Outcome
refusal s template vmid st = hold_off full_world s.cfg.name (
  some (clone_taken taken),
  mark_foreign vmid (
      called (clone (clone_options st.ctrl.cfg.proxmox (plan_of full_world s template vmid st)))
        st),
)

refusal-ran :
    (s : ScaleSetState) (template : Vm) (vmid : ℤ) (st : St)
    → run_create 0 full_world s template vmid st ≡ some (refusal s template vmid st)
unfolding run_create Create.create is_vmid_in_use message_contains contains_text has_prefix
    cut_prefix
refusal-ran s template vmid st = refl

abbrev refused : Outcome
refused = refusal linux_wanted template_vm (pos 100) before

-- After it, the next pass finds the VMID free in the listing.
abbrev ended : System
ended = record (Run.released (create (codes "linux") template_vm (pos 100)) refused.1 creating) {
  working = [];
}

abbrev next_planned : System
next_planned =
    passed env (hours 2) (ok (template_vm ∷ [])) (record ended { phase = Phase.reconciling })

goes_on : Steps full_world ended next_planned
goes_on =
    Steps.later (Steps.later Steps.here (Run.tick refl))
      (Run.pass env (hours 2) (ok (template_vm ∷ [])) refl)

taken-Barred_example :
    (is_foreign (pos 100) next_planned.ctrl ≡ true)
    × (tally (creates (pos 100)) (in_flight next_planned) ≡ 0)
taken-Barred_example =
    taken-Barred (codes "linux") template_vm (pos 100) [] [] refused.1 linux_wanted taken
      creating-reached refl one_planned.2 refl taken-is_vmid_in_use
      (Run.created linux_wanted 0 refused one_planned.2
        (refusal-ran linux_wanted template_vm (pos 100) before))
      goes_on
