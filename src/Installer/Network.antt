-- ===== src/Installer/Network.antt =====
-- internal/installer/steps.go and uninstall.go: the worker network, a zone and a VNet of Proxmox's SDN.
pub mod Up
use proxmox_actions_runners.Prelude.{
  ℕ, zero, suc, ℤ, ltb_ℤ, Bool, true, false, not, ◌||◌, List, [], ◌∷◌, ◌++◌, Text, Option, none,
  some, codes, if◌then◌else◌,
}
use proxmox_actions_runners.Prelude.Results.{Result, ok, err}
use proxmox_actions_runners.Prelude.Time.{Time, Duration, add, minutes, seconds}
use proxmox_actions_runners.Config.Defaults.{default_zone}
use proxmox_actions_runners.Installer.{Command, Host, Outcome, run, and_then, vnet}

abbrev pub zone : Text
zone = default_zone

-- What the node answers about its network: which SDN objects exist, which others have pending
-- changes, and, after a number of waits, the time, whether the VNet is up, and how the wait ends.
pub record Network : Type 0 where
  pub sdn_exists : List Command → Text → Bool
  pub pending : List Command → Result Text (List Text)
  pub now : ℕ → Time
  pub is_up : ℕ → Bool
  pub sleep : ℕ → Duration → Option Text

abbrev pub zone_object : Text
zone_object = codes "zones/" ++ zone

abbrev pub vnet_object : Text
vnet_object = codes "vnets/" ++ vnet

abbrev pub create_zone_command : Command
create_zone_command =
    codes "pvesh"
    ∷ codes "create"
    ∷ codes "/cluster/sdn/zones"
    ∷ codes "--type"
    ∷ codes "simple"
    ∷ codes "--zone"
    ∷ zone
    ∷ []

abbrev pub create_vnet_command : Command
create_vnet_command =
    codes "pvesh"
    ∷ codes "create"
    ∷ codes "/cluster/sdn/vnets"
    ∷ codes "--vnet"
    ∷ vnet
    ∷ codes "--zone"
    ∷ zone
    ∷ []

abbrev pub apply_command : Command
apply_command = codes "pvesh" ∷ codes "set" ∷ codes "/cluster/sdn" ∷ []

abbrev pub run_if : Bool → Host → Command → List Command → Outcome
run_if b host c log = if b then run host c log else (none, log)

abbrev pub not_up : Text
not_up = codes "the VNet didn't come up"

-- The loop that waits for the VNet; `none` is out of fuel.
unfoldable pub wait_for_vnet : ℕ → Network → (deadline : Time) → (waits : ℕ) → Option (Option Text)
wait_for_vnet zero net deadline waits = none
wait_for_vnet (suc fuel) net deadline waits =
    let rest = wait_for_vnet fuel net deadline (suc waits) in
    if net.is_up waits
    then some none
    else if ltb_ℤ deadline (net.now waits)
    then some (some not_up)
    else elim (net.sleep waits (seconds 1)) [ some e ↦ some (some e) | none ↦ rest ]

-- The commands of `createNetwork`: what is missing is created, and then applied.
unfoldable pub create_objects : Host → Network → List Command → Outcome
unfolding run and_then
create_objects host net log =
    let no_zone = not (net.sdn_exists log zone_object) in
    and_then (run_if no_zone host create_zone_command log) λ log1.
      let no_vnet = not (net.sdn_exists log1 vnet_object) in
      and_then (run_if no_vnet host create_vnet_command log1)
        (run_if (no_zone || no_vnet) host apply_command)

abbrev pub deadline : Network → Time
deadline net = add (net.now zero) (minutes 1)

abbrev pub wait_if_real : ℕ → Host → Network → Outcome → Option Outcome
wait_if_real fuel host net (some e, log) = some (some e, log)
wait_if_real fuel host net (none, log) =
    if host.dry_run
    then some (none, log)
    else elim (wait_for_vnet fuel net (deadline net) zero) [ none ↦ none | some e ↦ some (e, log) ]

unfoldable pub create_network : ℕ → Host → Network → List Command → Option Outcome
unfolding create_objects wait_for_vnet
create_network fuel host net log = wait_if_real fuel host net (create_objects host net log)

abbrev pub delete_command : Text → Command
delete_command object = codes "pvesh" ∷ codes "delete" ∷ (codes "/cluster/sdn/" ++ object) ∷ []

-- The SDN config is applied unless it has changes of others.
abbrev pub apply_own : Host → Network → List Command → Outcome
apply_own host net log = elim (net.pending log) [
  | err e ↦ (some e, log)
  | ok [] ↦ run host apply_command log
  | ok (o ∷ os) ↦ (none, log)
]

unfoldable pub remove_network : Host → Network → List Command → Outcome
unfolding run and_then
remove_network host net log =
    let has_vnet = net.sdn_exists log vnet_object in
    and_then (run_if has_vnet host (delete_command vnet_object) log) λ log1.
      let has_zone = net.sdn_exists log1 zone_object in
      and_then (run_if has_zone host (delete_command zone_object) log1)
        λ log2. if not (has_vnet || has_zone) then (none, log2) else apply_own host net log2
