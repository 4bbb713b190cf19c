-- ===== src/Installer/Template.antt =====
-- internal/installer/steps.go: importing the release's runner template.
pub mod Reserved
use proxmox_actions_runners.Prelude.{
  ℕ, zero, suc, ℤ, pos, ◌+ℤ◌, ◌-ℤ◌, leb_ℤ, ◌==◌, int_eq, Bool, true, false, not, ◌||◌, List, [],
  ◌∷◌, ◌++◌, Text, Option, none, some, codes, if◌then◌else◌, nat_beq,
}
use proxmox_actions_runners.Prelude.Results.{Result, ok, err, ◌>>=◌}
use proxmox_actions_runners.Prelude.Number.{itoa}
use proxmox_actions_runners.Config.{VmidRange}
use proxmox_actions_runners.Config.Range.{reserved_vmids}
use proxmox_actions_runners.Proxmox.{Vm}
use proxmox_actions_runners.Proxmox.Tags.{format_tags}
use proxmox_actions_runners.VmTags
use proxmox_actions_runners.Release.{Version, print}
use proxmox_actions_runners.Installer.{
  Command, Host, Outcome, run, run_each, and_then, tagged, runner_pool, vnet, release_tag,
}

unfoldable pub is_used : List Vm → ℤ → Bool
is_used [] id = false
is_used (vm ∷ vms) id = vm.vmid == id || is_used vms id

-- The loop of `freeReservedVMID`, for a number of IDs.
unfoldable pub first_free : ℕ → List Vm → ℤ → Option ℤ
unfolding is_used
first_free zero vms id = none
first_free (suc n) vms id =
    let rest = first_free n vms (id +ℤ pos 1) in if is_used vms id then rest else some id

-- The last four IDs of the range.
unfoldable pub free_reserved_vmid : List Vm → VmidRange → Option ℤ
unfolding first_free
free_reserved_vmid vms r = first_free 4 vms (r.end -ℤ reserved_vmids +ℤ pos 1)

-- `slices.DeleteFunc`
unfoldable pub delete_vm : ℤ → List Vm → List Vm
delete_vm id [] = []
delete_vm id (vm ∷ vms) = let rest = delete_vm id vms in if vm.vmid == id then rest else vm ∷ rest

-- How the look through the release's templates ended.
pub data Look : Type 0 where
  already_there : List Command → Look
  failed : Text → List Command → Look
  import_into : List Vm → List Command → Look

abbrev pub destroy_command : ℤ → Command
destroy_command id =
    codes "qm"
    ∷ codes "destroy"
    ∷ itoa id
    ∷ codes "--purge"
    ∷ codes "1"
    ∷ codes "--destroy-unreferenced-disks"
    ∷ codes "1"
    ∷ []

unfoldable pub and_look : Outcome → (List Command → Look) → Look
and_look (some e, log) next = failed e log
and_look (none, log) next = next log

unfoldable pub look_for_template : Host → (again : Bool) → List Vm → List Vm → List Command → Look
unfolding run delete_vm and_look
look_for_template host again [] vms log = import_into vms log
look_for_template host again (t ∷ ts) vms log =
    let skip = look_for_template host again ts vms log in
    let replaced =
      and_look (run host (destroy_command t.vmid) log)
        (look_for_template host again ts (delete_vm t.vmid vms)) in
    if t.template then if not again then already_there log else skip else replaced

-- The files of the release, which are fetched in order, and what the manifest says.
pub record Release : Type 0 where
  pub image : Result Text Text
  pub manifest : Result Text Text
  pub builds : Text → Option (List Text)

-- `runnerVersion`: the last build's.
unfoldable pub last_version : List Text → Text
last_version [] = []
last_version (v ∷ []) = v
last_version (v ∷ w ∷ vs) = last_version (w ∷ vs)

abbrev pub named_version : Text → Result Text Text
named_version [] = err (codes "names no runner version")
named_version (c ∷ v) = ok (c ∷ v)

unfoldable pub read_builds : Option (List Text) → Result Text Text
unfolding last_version
read_builds none = err (codes "isn't a Packer manifest")
read_builds (some []) = err (codes "isn't a Packer manifest")
read_builds (some (v ∷ vs)) = named_version (last_version (v ∷ vs))

-- What the commands are given: the settings, the release's version, and the time in seconds.
pub record Import : Type 0 where
  pub storage : Text
  pub vmid_range : VmidRange
  pub version : Version
  pub now : ℤ

-- `strings.ReplaceAll(s, ".", "-")`
unfoldable pub dots_to_dashes : Text → Text
dots_to_dashes [] = []
dots_to_dashes (c ∷ s) = (if nat_beq c b'.' then b'-' else c) ∷ dots_to_dashes s

abbrev pub template_tags : Import → Text → Text
template_tags i runner = format_tags (
    VmTags.managed
    ∷ VmTags.template
    ∷ (VmTags.template_version_prefix ++ itoa i.now)
    ∷ (VmTags.runner_version_prefix ++ runner)
    ∷ release_tag i.version
    ∷ [])

abbrev pub create_command : Import → ℤ → Text → Command
create_command i id runner =
    codes "qm"
    ∷ codes "create"
    ∷ itoa id
    ∷ codes "--name"
    ∷ (codes "par-runner-" ++ dots_to_dashes (print i.version))
    ∷ codes "--pool"
    ∷ runner_pool
    ∷ codes "--memory"
    ∷ codes "2048"
    ∷ codes "--cores"
    ∷ codes "2"
    ∷ codes "--cpu"
    ∷ codes "host"
    ∷ codes "--ostype"
    ∷ codes "l26"
    ∷ codes "--scsihw"
    ∷ codes "virtio-scsi-single"
    ∷ codes "--net0"
    ∷ (codes "virtio,bridge=" ++ vnet)
    ∷ codes "--agent"
    ∷ codes "enabled=1"
    ∷ codes "--serial0"
    ∷ codes "socket"
    ∷ codes "--vga"
    ∷ codes "serial0"
    ∷ codes "--tags"
    ∷ template_tags i runner
    ∷ []

abbrev pub disk_command : Import → ℤ → Text → Command
disk_command i id image =
    codes "qm"
    ∷ codes "set"
    ∷ itoa id
    ∷ codes "--scsi0"
    ∷ (i.storage ++ codes ":0,import-from=" ++ image)
    ∷ []

abbrev pub boot_command : Import → ℤ → Command
boot_command i id =
    codes "qm"
    ∷ codes "set"
    ∷ itoa id
    ∷ codes "--ide2"
    ∷ (i.storage ++ codes ":cloudinit")
    ∷ codes "--boot"
    ∷ codes "order=scsi0"
    ∷ codes "--ipconfig0"
    ∷ codes "ip=dhcp"
    ∷ []

abbrev pub template_command : ℤ → Command
template_command id = codes "qm" ∷ codes "template" ∷ itoa id ∷ []

abbrev pub import_commands : Import → ℤ → Text → Text → List Command
import_commands i id image runner =
    create_command i id runner
    ∷ disk_command i id image
    ∷ boot_command i id
    ∷ template_command id
    ∷ []

-- The image, and the runner's version.
unfoldable pub fetch_release : Release → Result Text (Text × Text)
unfolding read_builds
fetch_release rel = rel.image >>= λ image.
    rel.manifest >>= λ manifest. read_builds (rel.builds manifest) >>= λ runner. ok (image, runner)

abbrev pub no_free_vmid : Text
no_free_vmid = codes "no free VMID in the reserved IDs"

unfoldable pub create_template :
    Host → Import → Result Text (Text × Text) → Option ℤ → List Command → Outcome
create_template host i (err e) vmid log = (some e, log)
create_template host i (ok (image, runner)) none log = (some no_free_vmid, log)
create_template host i (ok (image, runner)) (some id) log =
    run_each host (import_commands i id image runner) log

unfoldable pub after_look : Host → Release → Import → Look → Outcome
unfolding create_template fetch_release
after_look host rel i (already_there log) = (none, log)
after_look host rel i (failed e log) = (some e, log)
after_look host rel i (import_into vms log) =
    create_template host i (fetch_release rel) (free_reserved_vmid vms i.vmid_range) log

unfoldable pub import_template : Host → Release → Import → (again : Bool) → List Command → Outcome
unfolding after_look look_for_template tagged
import_template host rel i again log = elim (host.vms_answer log) [
  | err e ↦ (some e, log)
  | ok vms ↦
      after_look host rel i
        (look_for_template host again (tagged vms runner_pool (release_tag i.version)) vms log)
]
