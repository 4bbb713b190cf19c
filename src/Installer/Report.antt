-- ===== src/Installer/Report.antt =====
-- internal/installer/status.go: the parts of the status that need no VM, and the report.
pub mod Failed
use proxmox_actions_runners.Prelude.{
  ℤ, pos, ◌+ℤ◌, ◌==◌, int_eq, text_eq, Bool, true, false, not, ◌||◌, ◌&&◌, List, [], ◌∷◌, ◌++◌,
  Text, Option, none, some, is_some, get_or, codes, is_empty, if◌then◌else◌,
}
use proxmox_actions_runners.Prelude.Number.{itoa}
use proxmox_actions_runners.Prelude.Results.{Result, ok, err}
use proxmox_actions_runners.Prelude.Time.{Time, Duration, sub, unix_time, hours}
use proxmox_actions_runners.Proxmox.{Vm, has_tag}
use proxmox_actions_runners.VmTags
use proxmox_actions_runners.GitHub.RunnerRelease.{
  RunnerRelease, current, behind, behind_warn, behind_error, staleness,
}
use proxmox_actions_runners.Release.{Version}
use proxmox_actions_runners.Settings.{Settings}
use proxmox_actions_runners.Controller.ScaleSet.{Stats}
use proxmox_actions_runners.Controller.State.{ScaleSetStatus}
use proxmox_actions_runners.Installer.{find_system_vm, runner_pool}
use proxmox_actions_runners.Installer.Upgrade.{gateway_tag, controller_tag}
use proxmox_actions_runners.Installer.Tuning.{Node}
use proxmox_actions_runners.Installer.Objects.{Inventory, host_findings}
use proxmox_actions_runners.Installer.Status.{
  Finding, finding, okay, warn, fail, SystemVmStatus, TemplateStatus, WorkerStatus, Snapshot,
  Report, ago, Guests, gateway_status, controller_status,
}

-- The name and ID of a scale set, and how its session does.
abbrev pub session_finding : Time → ScaleSetStatus → Finding
session_finding now ss =
    let since = ago (sub now ss.session_since) in
    if ss.session_open
    then finding okay (
        codes "scale set "
        ++ (ss.name
            ++ (codes " (ID " ++ (itoa ss.id ++ (codes "): listening for jobs for " ++ since)))))
    else if not (is_empty ss.session_error)
    then finding fail (
        codes "scale set "
        ++ (ss.name
            ++ (codes ": no session with GitHub since "
                ++ (since ++ (codes " ago: " ++ ss.session_error)))))
    else finding warn (codes "scale set " ++ (ss.name ++ codes ": no session with GitHub yet"))

abbrev pub stats_findings : Option Stats → List Finding
stats_findings none = []
stats_findings (some st) =
    finding okay (
      codes "  jobs: "
      ++ (itoa (st.available_jobs +ℤ st.acquired_jobs)
          ++ (codes " waiting, "
              ++ (itoa st.running_jobs
                  ++ (codes " running; runners: "
                      ++ (itoa st.registered_runners
                          ++ (codes " ("
                              ++ (itoa st.busy_runners
                                  ++ (codes " busy, "
                                      ++ (itoa st.idle_runners ++ codes " idle)"))))))))))
    ∷ []

unfoldable pub scale_set_findings : Time → List ScaleSetStatus → List Finding
scale_set_findings now [] = []
scale_set_findings now (ss ∷ sets) =
    session_finding now ss ∷ (stats_findings ss.stats ++ scale_set_findings now sets)

abbrev pub seen_findings : Time → Option Snapshot → List Finding
seen_findings now none = finding warn (codes "the controller reports no status yet") ∷ []
seen_findings now (some snap) = scale_set_findings now snap.scale_sets

-- `githubFindings`
unfoldable pub github_findings : Settings → Option Snapshot → Time → List Finding
github_findings s snap now =
    let app = s.github.app in
    if is_empty app.client_id || app.installation_id == pos 0
    then finding fail (codes "the GitHub App isn't set up yet; run parcon install") ∷ []
    else finding okay (
        s.github.config_url
        ++ (codes ", App "
            ++ (app.client_id ++ (codes ", installation " ++ itoa app.installation_id))))
      ∷ seen_findings now snap

abbrev pub is_vm : ℤ → Option Vm → Bool
is_vm vmid none = false
is_vm vmid (some vm) = vmid == vm.vmid

abbrev pub template_status : Option Vm → Vm → TemplateStatus
template_status newest vm = record {
  vmid = vm.vmid;
  runner_version = get_or (VmTags.string vm VmTags.runner_version_prefix) [];
  imported_at = unix_time (get_or (VmTags.int vm VmTags.template_version_prefix) (pos 0));
  newest = is_vm vm.vmid newest;
}

unfoldable pub template_statuses : Option Vm → List Vm → List TemplateStatus
template_statuses newest [] = []
template_statuses newest (vm ∷ vms) =
    let rest = template_statuses newest vms in
    if VmTags.is_template vm runner_pool then template_status newest vm ∷ rest else rest

abbrev pub worker_status : Vm → WorkerStatus
worker_status vm = record {
  vmid = vm.vmid;
  name = vm.name;
  scale_set = get_or (VmTags.string vm VmTags.scale_set_prefix) [];
  is_running = vm.status == codes "running";
  ready = has_tag vm VmTags.ready;
  created_at = unix_time (get_or (VmTags.int vm VmTags.created_prefix) (pos 0));
}

unfoldable pub worker_statuses : List Vm → List WorkerStatus
worker_statuses [] = []
worker_statuses (vm ∷ vms) =
    let rest = worker_statuses vms in
    if not (vm.pool == runner_pool) || not (has_tag vm VmTags.worker)
    then rest
    else worker_status vm ∷ rest

-- `templatesAndWorkers`
unfoldable pub templates_and_workers : List Vm → List TemplateStatus × List WorkerStatus
templates_and_workers vms =
    (template_statuses (VmTags.newest_template vms runner_pool) vms, worker_statuses vms)

-- The last template that is marked as the newest.
unfoldable pub marked_newest : List TemplateStatus → Option TemplateStatus → Option TemplateStatus
marked_newest [] found = found
marked_newest (t ∷ ts) found = marked_newest ts (if t.newest then some t else found)

abbrev pub has_runner : TemplateStatus → Text
has_runner t =
    codes "template " ++ (itoa t.vmid ++ (codes " has actions/runner " ++ t.runner_version))

abbrev pub runner_update_deadline : Duration
runner_update_deadline = hours 720

abbrev pub compared : RunnerRelease → TemplateStatus → Time → Finding
compared rel t now = elim (staleness rel t.runner_version now) [
  | current ↦ finding okay (has_runner t ++ codes ", the latest")
  | behind_error ↦ finding fail (
      has_runner t
      ++ (codes ", but "
          ++ (rel.version
              ++ (codes " came out "
                  ++ (ago (sub now rel.published_at)
                      ++ (codes " ago: GitHub stops accepting it "
                          ++ (ago runner_update_deadline
                              ++ codes " after that; run parcon update")))))))
  | _ ↦ finding warn (
      has_runner t
      ++ (codes "; "
          ++ (rel.version ++ codes " is out: run parcon update when a release carries it")))
]

abbrev pub runner_of : Result Text RunnerRelease → Time → Option TemplateStatus → Finding
runner_of latest now none = finding fail (codes "there is no runner template; run parcon update")
runner_of latest now (some t) = elim latest [
  | err e ↦ finding warn (has_runner t ++ (codes "; the latest release isn't known: " ++ e))
  | ok rel ↦ compared rel t now
]

-- `runnerFinding`
unfoldable pub runner_finding : Result Text RunnerRelease → Time → List TemplateStatus → Finding
runner_finding latest now templates = runner_of latest now (marked_newest templates none)

abbrev pub absent : Option Vm → Text → List Finding
absent (some vm) text = []
absent none text = finding fail text ∷ []

-- What is missing of the two VMs.
unfoldable pub absences : (gateway controller : Option Vm) → List Finding
absences gateway controller =
    absent gateway (codes "there is no gateway VM; run parcon install")
    ++ absent controller (codes "there is no controller VM; run parcon install")

abbrev pub gateway_of : Guests → Option Vm → Option SystemVmStatus
gateway_of g none = none
gateway_of g (some vm) = some (gateway_status g vm)

abbrev pub controller_of : Guests → Version → Option Vm → Option SystemVmStatus × Option Snapshot
controller_of g own none = (none, none)
controller_of g own (some vm) = let (st, snap) = controller_status g own vm in (some st, snap)

-- What the status asks: the VMs and the clock, Proxmox and the node, and where parcon's files are.
pub record Asked : Type 0 where
  pub guests : Guests
  pub inventory : Inventory
  pub node : Node
  pub own : Version
  pub binary_path : Text
  pub settings_path : Text

-- The findings of `Status`, of the settings, the VMs and the latest runner.
unfoldable pub report : Asked → Settings → List Vm → Result Text RunnerRelease → Report
report a s vms latest =
    let g = a.guests in
    let host =
      host_findings a.inventory a.node a.own a.binary_path a.settings_path s.network.bridge in
    let (templates, workers) = templates_and_workers vms in
    let gateway = find_system_vm vms gateway_tag in
    let controller = find_system_vm vms controller_tag in
    let (ctrl, snap) = controller_of g a.own controller in
    record {
      host = host ++ absences gateway controller;
      gateway = gateway_of g gateway;
      controller = ctrl;
      github = github_findings s snap g.now ++ runner_finding latest g.now templates ∷ [];
      templates = templates;
      workers = workers;
    }
