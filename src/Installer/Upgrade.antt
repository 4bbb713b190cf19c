-- ===== src/Installer/Upgrade.antt =====
-- internal/installer/update.go: what an update to this release does, step by step. The steps' own work is a
-- parameter, which can depend on the steps done before, newest first.
pub mod Plan
pub mod Tagged
use proxmox_actions_runners.Prelude.{
  ℤ, pos, ltb_ℤ, ◌==◌, text_eq, Bool, true, false, not, ◌&&◌, ◌||◌, List, [], ◌∷◌, ◌++◌, Text,
  Option, none, some, codes, if◌then◌else◌,
}
use proxmox_actions_runners.Prelude.Results.{Result, ok, err}
use proxmox_actions_runners.Prelude.Strings.{trim_space}
use proxmox_actions_runners.Proxmox.{Vm, has_tag}
use proxmox_actions_runners.Release.{Version, print, compare_versions}
use proxmox_actions_runners.Installer.{tagged, find_system_vm, runner_pool, release_tag}

-- A step, with the VMs it changes.
pub data UpgradeStep : Type 0 where
  install_binary : UpgradeStep
  import_template : UpgradeStep
  create_gateway : (controller : ℤ) → UpgradeStep
  replace_gateway : (gateway controller : ℤ) → UpgradeStep
  replace_controller_binary : (controller : ℤ) → UpgradeStep
  push_config : (controller : ℤ) → UpgradeStep
  tune_offloads tune_async_pf : UpgradeStep
  tag_release : (controller : ℤ) → UpgradeStep

-- What is read to make the plan: the VMs, the version that the controller's parcon names, the config that the
-- settings render to and the one in the controller VM, whether the running parcon is the
-- installed file, and whether the host needs tuning.
pub record Found : Type 0 where
  pub vms : Result Text (List Vm)
  pub controller_version : Result Text Text
  pub want_config : Result Text Text
  pub have_config : Result Text Text
  pub is_installed : Bool
  pub needs_offloads : Bool
  pub needs_async_pf : Bool

abbrev pub gateway_tag : Text
gateway_tag = codes "par-gateway"

abbrev pub controller_tag : Text
controller_tag = codes "par-controller"

abbrev pub step_if : Bool → UpgradeStep → List UpgradeStep
step_if b s = if b then s ∷ [] else []

unfoldable pub any_template : List Vm → Bool
any_template [] = false
any_template (vm ∷ vms) = vm.template || any_template vms

unfoldable pub has_template : Version → List Vm → Bool
unfolding any_template tagged
has_template v vms = any_template (tagged vms runner_pool (release_tag v))

unfoldable pub gateway_steps : Version → Bool → Option Vm → ℤ → List UpgradeStep
gateway_steps v force none controller = create_gateway controller ∷ []
gateway_steps v force (some gateway) controller =
    step_if (force || not (has_tag gateway (release_tag v)))
      (replace_gateway gateway.vmid controller)

unfoldable pub config_drifts : Text → Result Text Text → Bool
config_drifts want (err e) = true
config_drifts want (ok have) = not (trim_space have == trim_space want)

abbrev pub finish : Version → Vm → List UpgradeStep → List UpgradeStep
finish v controller [] =
    if has_tag controller (release_tag v) then [] else tag_release controller.vmid ∷ []
finish v controller (s ∷ ss) = (s ∷ ss) ++ tag_release controller.vmid ∷ []

-- Which pieces have to be redone.
pub record Needs : Type 0 where
  pub host_binary : Bool
  pub template : Bool
  pub controller_binary : Bool
  pub config : Bool
  pub offloads : Bool
  pub async_pf : Bool

unfoldable pub needs : Version → (force : Bool) → Found → List Vm → (version want : Text) → Needs
unfolding config_drifts has_template
needs v force f vms version want =
    let needs_binary = not (trim_space version == print v) in
    record {
      host_binary = not f.is_installed;
      template = not (has_template v vms) || force;
      controller_binary = needs_binary || force;
      config = needs_binary || (config_drifts want f.have_config || force);
      offloads = f.needs_offloads || force;
      async_pf = f.needs_async_pf || force;
    }

abbrev pub piece_steps : Needs → (gateway : List UpgradeStep) → (controller : ℤ) → List UpgradeStep
piece_steps n gateway controller =
    step_if n.host_binary install_binary
    ++ (step_if n.template import_template
        ++ (gateway
            ++ (step_if n.controller_binary (replace_controller_binary controller)
                ++ (step_if n.config (push_config controller)
                    ++ (step_if n.offloads tune_offloads ++ step_if n.async_pf tune_async_pf)))))

-- The steps, of what was found.
unfoldable pub plan_steps :
    Version → (force : Bool) → Found → List Vm → Option Vm → Vm → Text → Text → List UpgradeStep
unfolding gateway_steps needs
plan_steps v force f vms gateway controller version want = finish v controller (
    piece_steps (needs v force f vms version want) (gateway_steps v force gateway controller.vmid)
      controller.vmid)

abbrev pub no_gateway : Text
no_gateway = codes "the install has no gateway VM"

abbrev pub no_controller : Text
no_controller = codes "the controller VM isn't running"

abbrev pub is_missing : Option Vm → Bool
is_missing none = true
is_missing (some vm) = false

unfoldable pub with_controller :
    Version
    → (force : Bool) → Found
    → List Vm
    → Option Vm
    → Option Vm
    → Result Text (List UpgradeStep)
unfolding plan_steps
with_controller v force f vms gateway none = err no_controller
with_controller v force f vms gateway (some controller) =
    if not (controller.status == codes "running")
    then err no_controller
    else elim f.controller_version [
      | err e ↦ err e
      | ok version ↦ elim f.want_config [
        | err e ↦ err e
        | ok want ↦ ok (plan_steps v force f vms gateway controller version want)
      ]
    ]

unfoldable pub upgrade_steps : Version → (force : Bool) → Found → Result Text (List UpgradeStep)
unfolding with_controller find_system_vm
upgrade_steps v force f = elim f.vms [
  | err e ↦ err e
  | ok vms ↦
      if is_missing (find_system_vm vms gateway_tag) && not force
      then err no_gateway
      else with_controller v force f vms (find_system_vm vms gateway_tag)
          (find_system_vm vms controller_tag)
]

-- An error or none, and the steps done, the failed one included.
abbrev pub Outcome : Type 0
Outcome = Option Text × List UpgradeStep

-- What stands between the plan and its steps: whether it is a dry run, the answer to the question, and the lock.
pub record Permission : Type 0 where
  pub settings : Option Text
  pub dry_run : Bool
  pub confirmed : Bool
  pub question : Option Text
  pub lock : Option Text

abbrev pub newer_release : Text
newer_release = codes "the node runs a newer release"

module _ (do_step : List UpgradeStep → UpgradeStep → Option Text) where
  unfoldable pub run_steps : List UpgradeStep → List UpgradeStep → Outcome
  run_steps [] done = (none, done)
  run_steps (s ∷ ss) done =
      let rest = run_steps ss (s ∷ done) in
      elim (do_step done s) [ none ↦ rest | some e ↦ (some e, s ∷ done) ]

  unfoldable pub run_plan : Permission → Result Text (List UpgradeStep) → Outcome
  unfolding run_steps
  run_plan p (err e) = (some e, [])
  run_plan p (ok []) = (none, [])
  run_plan p (ok (s ∷ ss)) =
      if p.dry_run then (none, []) else elim (if p.confirmed then none else p.question) [
        | some e ↦ (some e, [])
        | none ↦ elim p.lock [ some e ↦ (some e, []) | none ↦ run_steps (s ∷ ss) [] ]
      ]

  -- `Upgrade`. The settings' error is that of reading them.
  unfoldable pub upgrade :
      Version → (installed : Version) → (force : Bool) → Permission → Found → Outcome
  unfolding run_plan upgrade_steps
  upgrade v installed force p f =
      if ltb_ℤ (pos 0) (compare_versions installed v)
      then (some newer_release, [])
      else elim p.settings [ some e ↦ (some e, []) | none ↦ run_plan p (upgrade_steps v force f) ]
