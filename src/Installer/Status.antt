-- ===== src/Installer/Status.antt =====
-- internal/installer/status.go: what `parcon status` reports. What the guests and GitHub answer, and
-- the JSON of the controller's own status, are parameters.
use proxmox_actions_runners.Prelude.{
  ℕ, zero, suc, nat_beq, ℤ, pos, negsuc, ◌*◌, ◌/◌, ltb_ℤ, ◌==◌, int_eq, text_eq, Bool, true, false,
  not, ◌||◌, ◌&&◌, List, [], ◌∷◌, ◌++◌, Text, Option, none, some, get_or, codes, is_empty,
  if◌then◌else◌,
}
use proxmox_actions_runners.Prelude.Strings.{trim_space}
use proxmox_actions_runners.Prelude.Number.{itoa}
use proxmox_actions_runners.Prelude.Results.{Result, ok, err}
use proxmox_actions_runners.Prelude.Time.{Time, Duration, second, sub, minutes, hours}
use proxmox_actions_runners.Proxmox.{Vm}
use proxmox_actions_runners.VmTags
use proxmox_actions_runners.Release.{Version, print}
use proxmox_actions_runners.Controller.State.{ScaleSetStatus}
use proxmox_actions_runners.Installer.{release_prefix}

pub data Level : Type 0 where
  okay warn fail : Level

pub record Finding : Type 0 where
  pub level : Level
  pub text : Text

abbrev pub finding : Level → Text → Finding
finding l t = record { level = l; text = t }

abbrev pub is_fail : Level → Bool
is_fail fail = true
is_fail _ = false

-- The loop of `worst`, with the level so far.
unfoldable pub worst_from : Level → List Finding → Level
worst_from level [] = level
worst_from level (f ∷ fs) = elim f.level [
  | fail ↦ fail
  | warn ↦ worst_from warn fs
  | okay ↦ worst_from level fs
]

abbrev pub worst : List Finding → Level
worst fs = worst_from okay fs

pub record SystemVmStatus : Type 0 where
  pub vmid : ℤ
  pub is_running : Bool
  pub release : Text
  pub address : Text
  pub findings : List Finding

pub record TemplateStatus : Type 0 where
  pub vmid : ℤ
  pub runner_version : Text
  pub imported_at : Time
  pub newest : Bool

pub record WorkerStatus : Type 0 where
  pub vmid : ℤ
  pub name : Text
  pub scale_set : Text
  pub is_running : Bool
  pub ready : Bool
  pub created_at : Time

-- internal/controller/status.go: the report that the controller writes, as far as it is read.
pub record Snapshot : Type 0 where
  pub schema : ℤ
  pub updated_at : Time
  pub last_error : Text
  pub scale_sets : List ScaleSetStatus

-- The judged parts of the report.
pub record Report : Type 0 where
  pub host : List Finding
  pub gateway : Option SystemVmStatus
  pub controller : Option SystemVmStatus
  pub github : List Finding
  pub templates : List TemplateStatus
  pub workers : List WorkerStatus

abbrev pub findings_of : Option SystemVmStatus → List Finding
findings_of none = []
findings_of (some st) = st.findings

abbrev pub all_findings : Report → List Finding
all_findings r = ((r.host ++ r.github) ++ findings_of r.gateway) ++ findings_of r.controller

unfoldable pub any_fails : List Finding → Bool
any_fails [] = false
any_fails (f ∷ fs) = is_fail f.level || any_fails fs

-- `Report.Failed`
unfoldable pub failed : Report → Bool
failed r = any_fails (all_findings r)

-- Whole units of a duration, rounded to zero.
abbrev pub whole : ℕ → Duration → ℤ
whole unit (pos n) = pos (n / unit)
whole unit (negsuc n) = elim (suc n / unit) [ zero ↦ pos 0 | suc m ↦ negsuc m ]

unfoldable pub ago : Duration → Text
ago d =
    if ltb_ℤ d (minutes 1)
    then itoa (whole second d) ++ codes "s"
    else if ltb_ℤ d (hours 1)
    then itoa (whole (60 * second) d) ++ codes "m"
    else if ltb_ℤ d (hours 48)
    then itoa (whole (3600 * second) d) ++ codes "h"
    else itoa (whole (86400 * second) d) ++ codes "d"

abbrev pub or_none : Text → Text
or_none s = if is_empty s then codes "unknown" else s

abbrev pub not_running : ℤ → Text
not_running vmid =
    codes "VM " ++ (itoa vmid ++ (codes " isn't running; start it with qm start " ++ itoa vmid))

abbrev pub replace_advice : Finding
replace_advice = finding fail (codes "parcon update --force replaces it")

-- `strings.ReplaceAll` of newlines by ", ".
unfoldable pub replace_lines : Text → Text
replace_lines [] = []
replace_lines (c ∷ s) =
    let rest = replace_lines s in if nat_beq c 10 then 44 ∷ 32 ∷ rest else c ∷ rest

-- What the VMs, the rendered configuration and the clock answer. A command in a VM gives its output,
-- and an error.
pub record Guests : Type 0 where
  pub agent_answers : ℤ → Bool
  pub address : ℤ → Option Text
  pub exec : ℤ → List Text → Text × Option Text
  pub rendered : Result Text Text
  pub unmarshal : Text → Option Snapshot
  pub now : Time

module _ (g : Guests) where
  unfoldable pub guest : ℤ → List Text → Text × Option Text
  guest vmid argv = let (out, e) = g.exec vmid argv in (trim_space out, e)

  -- `systemVMStatus`
  unfoldable pub system_vm_status : Vm → SystemVmStatus
  system_vm_status vm =
      let st : SystemVmStatus = record {
        vmid = vm.vmid;
        is_running = vm.status == codes "running";
        release = get_or (VmTags.string vm release_prefix) [];
        address = [];
        findings = [];
      } in
      if not st.is_running
      then record st { findings = finding fail (not_running vm.vmid) ∷ [] }
      else if not (g.agent_answers vm.vmid)
      then record st { findings = finding fail (codes "its guest agent doesn't answer") ∷ [] }
      else record st { address = get_or (g.address vm.vmid) [] }

  abbrev pub service_finding : Text × Option Text → Finding
  service_finding (out, none) =
      finding okay (codes "DHCP, DNS, and NAT for the worker network are active")
  service_finding (out, some e) = finding fail (
      codes "dnsmasq or nftables isn't active ("
      ++ (replace_lines out ++ codes "): workers get no network"))

  abbrev pub running_text : SystemVmStatus → Text
  running_text st =
      codes "running, release " ++ (or_none st.release ++ (codes ", " ++ or_none st.address))

  abbrev pub add_findings : SystemVmStatus → List Finding → SystemVmStatus
  add_findings st fs = record st { findings = st.findings ++ fs }

  -- `gatewayStatus`
  unfoldable pub gateway_status : Vm → SystemVmStatus
  gateway_status vm =
      let st = system_vm_status vm in
      let services = guest vm.vmid (
        codes "systemctl"
        ∷ codes "is-active"
        ∷ codes "dnsmasq.service"
        ∷ codes "nftables.service"
        ∷ []) in
      elim st.findings [
        | [] ↦ add_findings st (finding okay (running_text st) ∷ service_finding services ∷ [])
        | f ∷ fs ↦ add_findings st (replace_advice ∷ [])
      ]

  -- A command as the user parcon.
  abbrev pub as_parcon : List Text → List Text
  as_parcon argv = codes "runuser" ∷ codes "-u" ∷ codes "parcon" ∷ codes "--" ∷ argv

  abbrev pub version_said : Text × Option Text → Text
  version_said (out, none) = out
  version_said (out, some e) = codes "unknown"

  -- Whether a version is Go's zero value.
  abbrev pub is_zero : Version → Bool
  is_zero v = (v.major == pos 0) && ((v.minor == pos 0) && ((v.patch == pos 0) && is_empty v.pre))

  abbrev pub version_findings : Version → Text → List Finding
  version_findings own said =
      if not (said == print own) && not (is_zero own)
      then finding warn (
          codes "the controller runs parcon "
          ++ (said
              ++ (codes " and this host parcon " ++ (print own ++ codes "; run parcon update"))))
        ∷ []
      else []

  abbrev pub unit_finding : ℤ → Text × Option Text → Finding
  unit_finding vmid (out, none) = finding okay (codes "parcon.service is active")
  unit_finding vmid (out, some e) = finding fail (
      codes "parcon.service is "
      ++ (out ++ (codes "; see journalctl -u parcon in VM " ++ itoa vmid)))

  abbrev pub have_finding : Text → Text × Option Text → Finding
  have_finding want (out, some e) = finding fail (codes "can't read the controller's config: " ++ e)
  have_finding want (out, none) =
      if not (out == trim_space want)
      then finding warn
          (codes "the controller's config doesn't match the settings; run parcon config apply")
      else finding okay (codes "its config matches the settings")

  abbrev pub config_finding : Text × Option Text → Finding
  config_finding have = elim g.rendered [
    | err e ↦ finding fail (codes "the settings don't render a config: " ++ e)
    | ok want ↦ have_finding want have
  ]

  -- The status that was read, if it is one of this format.
  abbrev pub snapshot_of : Text × Option Text → Option Snapshot
  snapshot_of (out, some e) = none
  snapshot_of (out, none) = elim (g.unmarshal out) [
    | none ↦ none
    | some snap ↦ if not (snap.schema == pos 1) then none else some snap
  ]

  abbrev pub pass_findings : Option Snapshot → List Finding
  pass_findings none = []
  pass_findings (some snap) =
      let age = sub g.now snap.updated_at in
      (if ltb_ℤ (minutes 2) age
        then finding warn (codes "its last pass was " ++ (ago age ++ codes " ago")) ∷ []
        else [])
      ++ (if is_empty snap.last_error
          then []
          else finding warn (codes "its last pass failed: " ++ snap.last_error) ∷ [])

  -- `controllerStatus`
  unfoldable pub controller_status : Version → Vm → SystemVmStatus × Option Snapshot
  controller_status own vm =
      let st = system_vm_status vm in
      let said = version_said (guest vm.vmid (as_parcon (codes "parcon" ∷ codes "version" ∷ []))) in
      let unit =
        guest vm.vmid (codes "systemctl" ∷ codes "is-active" ∷ codes "parcon.service" ∷ []) in
      let have =
        guest vm.vmid
          (as_parcon (codes "cat" ∷ codes "/etc/proxmox-actions-runners/config.yaml" ∷ [])) in
      let snap = snapshot_of (guest vm.vmid (codes "cat" ∷ codes "/run/parcon/status.json" ∷ [])) in
      elim st.findings [
        | [] ↦ (
          add_findings st (
              finding okay (running_text st ++ (codes ", parcon " ++ said))
              ∷ (version_findings own said
                  ++ (unit_finding vm.vmid unit ∷ config_finding have ∷ pass_findings snap))),
          snap,
        )
        | f ∷ fs ↦ (st, none)
      ]
