-- ===== src/Installer/Report/Failed.antt =====
-- internal/installer/status.go: what makes the report say that the install has failed.
use proxmox_actions_runners.Prelude.Int.{beq_ℤ_iff}
use proxmox_actions_runners.Prelude.{
  pos, ◌≡◌, ◌⊎◌, refl, inl, inr, true, false, ◌||◌, ◌==◌, int_eq, text_eq, List, [], ◌∷◌, ◌++◌,
  Text, Option, none, some, codes, is_empty, contains, arith,
}
use proxmox_actions_runners.Prelude.Results.{Result}
use proxmox_actions_runners.Prelude.Time.{Time}
use proxmox_actions_runners.Proxmox.{Vm}
use proxmox_actions_runners.VmTags
use proxmox_actions_runners.GitHub.RunnerRelease.{RunnerRelease}
use proxmox_actions_runners.Settings.{Settings}
use proxmox_actions_runners.Installer.{find_system_vm, system_pool, runner_pool}
use proxmox_actions_runners.Installer.Upgrade.{gateway_tag, controller_tag}
use proxmox_actions_runners.Installer.Network.{zone_object, vnet_object}
use proxmox_actions_runners.Installer.Access.{role, token_name}
use proxmox_actions_runners.Installer.Tuning.{is_none}
use proxmox_actions_runners.Installer.Objects.{Inventory, missing_objects, host_findings}
use proxmox_actions_runners.Installer.Status.{
  fail, Finding, finding, not_running, replace_advice, is_fail, any_fails, failed, findings_of,
  Guests, system_vm_status, gateway_status, Snapshot,
}
use proxmox_actions_runners.Installer.Report.{
  github_findings, template_statuses, templates_and_workers, marked_newest, runner_finding,
  absences, controller_of, Asked, report,
}

any_fails-append : (xs ys : List Finding) → any_fails (xs ++ ys) ≡ (any_fails xs || any_fails ys)
unfolding any_fails
any_fails-append [] ys = refl
any_fails-append (f ∷ xs) ys = ground (arith, any_fails-append xs ys)

fails_left : (xs ys : List Finding) → any_fails xs ≡ true → any_fails (xs ++ ys) ≡ true
fails_left xs ys h = ground (arith, h, any_fails-append xs ys)

fails_right : (xs ys : List Finding) → any_fails ys ≡ true → any_fails (xs ++ ys) ≡ true
fails_right xs ys h = ground (arith, h, any_fails-append xs ys)

-- No template is marked where there is no newest one.
marked_newest-none : (vms : List Vm) → marked_newest (template_statuses none vms) none ≡ none
unfolding marked_newest template_statuses
marked_newest-none [] = refl
marked_newest-none (vm ∷ vms) = ground (arith, marked_newest-none vms)

system_vm_status-stopped :
    (g : Guests) (vm : Vm)
    → (vm.status == codes "running") ≡ false
    → (system_vm_status g vm).findings ≡ finding fail (not_running vm.vmid) ∷ []
unfolding system_vm_status
system_vm_status-stopped g vm h = rw (system_vm_status, h) refl

gateway_status-stopped :
    (g : Guests) (vm : Vm)
    → (vm.status == codes "running") ≡ false
    → any_fails (gateway_status g vm).findings ≡ true
unfolding gateway_status any_fails
gateway_status-stopped g vm h =
    let said = (system_vm_status g vm).findings in
    rw (gateway_status, system_vm_status-stopped g vm h)
      (ground (arith, any_fails-append said (replace_advice ∷ [])))

-- An object of the install that Proxmox lacks.
pub data Lacking (inv : Inventory) : Type 0 where
  no_system_pool : contains inv.pools system_pool ≡ false → Lacking inv
  no_runner_pool : contains inv.pools runner_pool ≡ false → Lacking inv
  no_role : contains inv.roles role ≡ false → Lacking inv
  no_token : contains inv.tokens token_name ≡ false → Lacking inv
  no_zone : inv.sdn_exists zone_object ≡ false → Lacking inv
  no_vnet : inv.sdn_exists vnet_object ≡ false → Lacking inv

missing_objects-some : (inv : Inventory) → Lacking inv → is_none (missing_objects inv) ≡ false
unfolding missing_objects
missing_objects-some inv (no_system_pool h) = ground (arith, h)
missing_objects-some inv (no_runner_pool h) = ground (arith, h)
missing_objects-some inv (no_role h) = ground (arith, h)
missing_objects-some inv (no_token h) = ground (arith, h)
missing_objects-some inv (no_zone h) = ground (arith, h)
missing_objects-some inv (no_vnet h) = ground (arith, h)

abbrev host_of : Asked → Text → List Finding
host_of a bridge = host_findings a.inventory a.node a.own a.binary_path a.settings_path bridge

host-fails : (a : Asked) (bridge : Text) → Lacking a.inventory → any_fails (host_of a bridge) ≡ true
unfolding host_findings any_fails
host-fails a bridge h = rw (missing_objects-some a.inventory h) refl

-- What is wrong with an install, of the settings, the VMs and Proxmox's objects.
pub data Broken (s : Settings) (vms : List Vm) (inv : Inventory) : Type 0 where
  no_gateway : find_system_vm vms gateway_tag ≡ none → Broken s vms inv
  gateway_stopped :
      (vm : Vm)
      → find_system_vm vms gateway_tag ≡ some vm
      → (vm.status == codes "running") ≡ false
      → Broken s vms inv
  no_controller : find_system_vm vms controller_tag ≡ none → Broken s vms inv
  no_app :
      (is_empty s.github.app.client_id ≡ true) ⊎ (s.github.app.installation_id ≡ pos 0)
      → Broken s vms inv
  no_template : VmTags.newest_template vms runner_pool ≡ none → Broken s vms inv
  object_missing : Lacking inv → Broken s vms inv

absences-fails :
    (gateway controller : Option Vm)
    → (gateway ≡ none) ⊎ (controller ≡ none)
    → any_fails (absences gateway controller) ≡ true
unfolding absences any_fails
absences-fails gateway controller (inl e) = rw (absences, e) refl
absences-fails none controller (inr e) = refl
absences-fails (some vm) controller (inr e) = rw (absences, e) refl

github_findings-fails :
    (s : Settings) (snap : Option Snapshot) (now : Time)
    → (is_empty s.github.app.client_id ≡ true) ⊎ (s.github.app.installation_id ≡ pos 0)
    → any_fails (github_findings s snap now) ≡ true
unfolding github_findings any_fails
github_findings-fails s snap now (inl h) = rw (github_findings, h) refl
github_findings-fails s snap now (inr h) =
    ground (arith, h, beq_ℤ_iff s.github.app.installation_id (pos 0))

runner_finding-fails :
    (latest : Result Text RunnerRelease) (now : Time) (vms : List Vm)
    → VmTags.newest_template vms runner_pool ≡ none
    → is_fail (runner_finding latest now (templates_and_workers vms).0).level ≡ true
unfolding runner_finding templates_and_workers
runner_finding-fails latest now vms h = rw (h, marked_newest-none vms) refl

one_fails : (f : Finding) → is_fail f.level ≡ true → any_fails (f ∷ []) ≡ true
unfolding any_fails
one_fails f h = rw h refl

-- The parts of the report that can fail.
report-parts :
    (a : Asked) (s : Settings) (vms : List Vm) (latest : Result Text RunnerRelease)
    → let r = report a s vms latest in
      (any_fails r.host ≡ true)
        ⊎ ((any_fails r.github ≡ true) ⊎ (any_fails (findings_of r.gateway) ≡ true))
      → failed r ≡ true
unfolding failed
report-parts a s vms latest h =
    let r = report a s vms latest in
    ground (
      arith,
      h,
      any_fails-append ((r.host ++ r.github) ++ findings_of r.gateway) (findings_of r.controller),
      any_fails-append (r.host ++ r.github) (findings_of r.gateway),
      any_fails-append r.host r.github,
    )

-- The report says that it failed if there is no gateway, no controller VM or no runner template, if the
-- gateway isn't running, if the GitHub App has no client ID or no
-- installation ID, or if Proxmox lacks one of the pools, the role,
-- the token, the zone or the VNet.
pub report-failed :
    (a : Asked) (s : Settings) (vms : List Vm) (latest : Result Text RunnerRelease)
    → Broken s vms a.inventory
    → failed (report a s vms latest) ≡ true
unfolding report any_fails
report-failed a s vms latest broken = report-parts a s vms latest (part broken)
  where
    gw : Option Vm
    gw = find_system_vm vms gateway_tag

    ctrl : Option Vm
    ctrl = find_system_vm vms controller_tag

    part :
        Broken s vms a.inventory
        → (any_fails (report a s vms latest).host ≡ true)
          ⊎ ((any_fails (report a s vms latest).github ≡ true)
              ⊎ (any_fails (findings_of (report a s vms latest).gateway) ≡ true))
    part (no_gateway e) = inl (
        fails_right (host_of a s.network.bridge) (absences gw ctrl)
          (absences-fails gw ctrl (inl e)))
    part (gateway_stopped vm e h) = inr (inr (rw e (gateway_status-stopped a.guests vm h)))
    part (no_controller e) = inl (
        fails_right (host_of a s.network.bridge) (absences gw ctrl)
          (absences-fails gw ctrl (inr e)))
    part (no_app e) =
        let snap = (controller_of a.guests a.own (find_system_vm vms controller_tag)).1 in
        let runner = runner_finding latest a.guests.now (templates_and_workers vms).0 in
        inr (
          inl (
            fails_left (github_findings s snap a.guests.now) (runner ∷ [])
              (github_findings-fails s snap a.guests.now e)))
    part (no_template e) =
        let snap = (controller_of a.guests a.own (find_system_vm vms controller_tag)).1 in
        let runner = runner_finding latest a.guests.now (templates_and_workers vms).0 in
        inr (
          inl (
            fails_right (github_findings s snap a.guests.now) (runner ∷ [])
              (one_fails runner (runner_finding-fails latest a.guests.now vms e))))
    part (object_missing e) = inl (
        fails_left (host_of a s.network.bridge) (absences gw ctrl)
          (host-fails a s.network.bridge e))
