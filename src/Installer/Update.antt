-- ===== src/Installer/Update.antt =====
-- internal/installer/update.go and installer.go: what an update does first. `release.ParseVersion` and
-- the newest release are parameters.
use proxmox_actions_runners.Prelude.{
  pos, ltb_ℤ, Bool, not, ◌&&◌, List, Text, Option, none, some, codes, if◌then◌else◌,
}
use proxmox_actions_runners.Prelude.Results.{Result, ok, err}
use proxmox_actions_runners.Proxmox.{Vm}
use proxmox_actions_runners.Release.{Version, compare_versions}
use proxmox_actions_runners.VmTags
use proxmox_actions_runners.Installer.{find_system_vm, release_prefix}
use proxmox_actions_runners.Installer.Upgrade.{controller_tag}

pub record UpdateOptions : Type 0 where
  pub pre : Bool
  pub continue : Bool
  pub force : Bool

-- What follows: the newer parcon is installed and run, or this one upgrades the node.
pub data Next : Type 0 where
  update_self : (installed newest : Version) → Next
  upgrade_node : (installed : Version) → Next

abbrev pub unreadable_release : Text
unreadable_release = codes "the release tag can't be read"

abbrev pub read_release : (Text → Option Version) → Option Text → Result Text (Option Version)
read_release parse none = ok none
read_release parse (some s) = elim (parse s) [
  | none ↦ err unreadable_release
  | some v ↦ ok (some v)
]

-- `InstalledRelease`: the release tag of the controller VM.
unfoldable pub installed_release :
    (Text → Option Version) → Result Text (List Vm) → Result Text (Option Version)
unfolding find_system_vm VmTags.string
installed_release parse (err e) = err e
installed_release parse (ok vms) = elim (find_system_vm vms controller_tag) [
  | none ↦ ok none
  | some vm ↦ read_release parse (VmTags.string vm release_prefix)
]

abbrev pub not_installed : Text
not_installed = codes "there is no finished install on this node"

-- `Update`, up to the release that is asked for.
unfoldable pub update :
    Version
    → UpdateOptions
    → (local_assets : Bool) → (installed : Result Text (Option Version))
    → (newest : Bool → Result Text Version) → Result Text Next
update v opts local_assets (err e) newest = err e
update v opts local_assets (ok none) newest = err not_installed
update v opts local_assets (ok (some installed)) newest =
    if not opts.continue && not local_assets
    then elim (newest opts.pre) [
      | err e ↦ err e
      | ok latest ↦
          if ltb_ℤ (pos 0) (compare_versions latest v)
          then ok (update_self installed latest)
          else ok (upgrade_node installed)
    ]
    else ok (upgrade_node installed)
