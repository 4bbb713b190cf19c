-- ===== src/Installer/Objects.antt =====
-- internal/installer/status.go: what `parcon status` finds on the host.
use proxmox_actions_runners.Prelude.{
  text_eq, Bool, not, List, [], ◌∷◌, ◌++◌, Text, codes, contains, if◌then◌else◌,
}
use proxmox_actions_runners.Release.{Version, print}
use proxmox_actions_runners.Installer.{system_pool, runner_pool, vnet}
use proxmox_actions_runners.Installer.Network.{zone, zone_object, vnet_object}
use proxmox_actions_runners.Installer.Access.{role, pve_user, token_name}
use proxmox_actions_runners.Installer.Status.{Finding, finding, okay, warn, fail}
use proxmox_actions_runners.Installer.Tuning.{
  Node, join, is_none, CheckResult, installed, check_offloads, check_async_pf,
}

-- What Proxmox lists, of its pools, its roles and the user's tokens nothing where it can't be asked.
pub record Inventory : Type 0 where
  pub pools : List Text
  pub roles : List Text
  pub tokens : List Text
  pub sdn_exists : Text → Bool

abbrev pub unless : Bool → Text → List Text
unless present name = if not present then name ∷ [] else []

-- The objects of the install that Proxmox lacks.
unfoldable pub missing_objects : Inventory → List Text
missing_objects inv =
    unless (contains inv.pools system_pool) (codes "pool " ++ system_pool)
    ++ (unless (contains inv.pools runner_pool) (codes "pool " ++ runner_pool)
        ++ (unless (contains inv.roles role) (codes "role " ++ role)
            ++ (unless (contains inv.tokens token_name)
                  (codes "token " ++ (pve_user ++ (codes "!" ++ token_name)))
                ++ (unless (inv.sdn_exists zone_object) (codes "SDN " ++ zone_object)
                    ++ unless (inv.sdn_exists vnet_object) (codes "SDN " ++ vnet_object)))))

abbrev pub objects_finding : List Text → Finding
objects_finding missing =
    if not (is_none missing)
    then finding fail
        (codes "missing " ++ (join (codes ", ") missing ++ codes "; run parcon install"))
    else finding okay
        (codes "pools, role, token, and the worker network " ++ (zone ++ (codes "/" ++ vnet)))

abbrev pub tuning_finding : Text → CheckResult → Finding
tuning_finding name c =
    finding (if not c.passed then warn else okay) (name ++ (codes ": " ++ c.reason))

-- `hostFindings`
unfoldable pub host_findings :
    Inventory → Node → Version → (binary_path settings_path : Text) → (bridge : Text) → List Finding
host_findings inv n own binary_path settings_path bridge =
    finding okay (
      codes "parcon "
      ++ (print own
          ++ (codes " at " ++ (binary_path ++ (codes ", settings at " ++ settings_path)))))
    ∷ objects_finding (missing_objects inv)
    ∷ tuning_finding (codes "LAN NIC offloads") (check_offloads n bridge installed)
    ∷ tuning_finding (codes "KVM async page faults") (check_async_pf n installed)
    ∷ []
