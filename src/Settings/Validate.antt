-- ===== src/Settings/Validate.antt =====
-- internal/settings/settings.go: every problem of the settings, in order. The patterns of package
-- regexp, the addresses of package net/netip and `ParseGitHubURL` are parameters.
pub mod Sound
use proxmox_actions_runners.Prelude.{
  ℕ, ℤ, pos, ◌+ℤ◌, ltb_ℤ, ◌==◌, text_eq, Bool, true, false, ◌||◌, ◌&&◌, not, List, [], ◌∷◌, ◌++◌,
  Text, Option, none, some, is_empty, if◌then◌else◌, int_eq,
}
use proxmox_actions_runners.Prelude.Int.{wrap64}
use proxmox_actions_runners.Config.{VmidRange}
use proxmox_actions_runners.Config.Defaults.{default_runner_group}
use proxmox_actions_runners.Config.Range.{size, reserved_vmids}
use proxmox_actions_runners.Config.Validate.{names_repository, min_max_lifetime, max_max_lifetime}
use proxmox_actions_runners.Settings.{Network, App, GitHub, ScaleSet, Settings, dhcp}
use proxmox_actions_runners.Config

-- A network address with its prefix, as package netip reads it.
pub record Prefix : Type 0 where
  pub is_4 : Bool
  pub bits : ℤ
  pub is_masked : Bool

-- What the checks use of other packages. An address is read as whether it is an IPv4 one.
pub record Packages : Type 0 where
  pub is_id : Text → Bool
  pub is_label : Text → Bool
  pub is_runner_group : Text → Bool
  pub is_github_url : Text → Bool
  pub is_slug : Text → Bool
  pub is_scale_set_name : Text → Bool
  pub parse_addr : Text → Option Bool
  pub parse_prefix : Text → Option Prefix
  pub parse_github_url : Text → Option (Text × Text)

-- One for each message.
pub data Problem : Type 0 where
  bridge_name vlan_range pve_address gateway_ip controller_ip lan_gateway : Problem
  worker_subnet subnet_prefix storage_id vmid_bounds start_after_end too_few_ids : Problem
  github_url client_id app_slug installation_id scale_set_name runner_group wrong_group : Problem
  lifetime_range negative_min no_runners min_above_max few_cores little_memory negative_disk :
      Problem
  invalid_label : Text → Problem

abbrev pub report : Bool → Problem → List Problem
report true p = p ∷ []
report false p = []

abbrev pub is_address : Option Bool → Bool
is_address none = false
is_address (some is_4) = is_4

abbrev pub is_prefix : Option Prefix → Bool
is_prefix none = false
is_prefix (some p) = p.is_4

-- One round of the loop over the two addresses.
abbrev pub static_problem : Packages → Text → Problem → List Problem
static_problem k value p = report (not (value == dhcp) && not (is_prefix (k.parse_prefix value))) p

abbrev pub subnet_problems : Option Prefix → List Problem
subnet_problems none = report true worker_subnet
subnet_problems (some sub) =
    if not sub.is_4
    then report true worker_subnet
    else report (ltb_ℤ sub.bits (pos 8) || (ltb_ℤ (pos 29) sub.bits || not sub.is_masked))
        subnet_prefix

unfoldable pub validate_network : Packages → Network → List Problem
validate_network k n =
    report (not (k.is_id n.bridge)) bridge_name
    ++ (report (ltb_ℤ n.vlan (pos 0) || ltb_ℤ (pos 4094) n.vlan) vlan_range
        ++ (report (not (is_empty n.pve_address) && not (is_address (k.parse_addr n.pve_address)))
              pve_address
            ++ (static_problem k n.gateway_ip gateway_ip
                ++ (static_problem k n.controller_ip controller_ip
                    ++ (report
                          ((not (n.gateway_ip == dhcp) || not (n.controller_ip == dhcp))
                            && not (is_address (k.parse_addr n.lan_gateway)))
                          lan_gateway
                        ++ subnet_problems (k.parse_prefix n.worker_subnet))))))

-- The sum is a Go `int`.
unfoldable pub range_problems : VmidRange → ℤ → List Problem
range_problems r max_runners =
    if ltb_ℤ r.start (pos 100) || ltb_ℤ (pos 999999999) r.end
    then report true vmid_bounds
    else if ltb_ℤ r.end r.start
    then report true start_after_end
    else report (ltb_ℤ (size r) (wrap64 (max_runners +ℤ reserved_vmids))) too_few_ids

unfoldable pub validate_github : Packages → GitHub → List Problem
validate_github k g =
    report (not (is_empty g.config_url) && not (k.is_github_url g.config_url)) github_url
    ++ (report (not (is_empty g.app.client_id) && not (k.is_label g.app.client_id)) client_id
        ++ (report (not (is_empty g.app.slug) && not (k.is_slug g.app.slug)) app_slug
            ++ report (ltb_ℤ g.app.installation_id (pos 0)) installation_id))

unfoldable pub label_problems : Packages → List Text → List Problem
label_problems k [] = []
label_problems k (l ∷ ls) = report (not (k.is_label l)) (invalid_label l) ++ label_problems k ls

abbrev pub group_problems : Packages → Text → Text → List Problem
group_problems k config_url group =
    if not (k.is_runner_group group)
    then report true runner_group
    else report
        (not (is_empty config_url)
          && (names_repository (k.parse_github_url config_url)
              && not (group == default_runner_group)))
        wrong_group

abbrev pub runner_problems : ScaleSet → List Problem
runner_problems ss =
    if ltb_ℤ ss.max_runners (pos 1)
    then report true no_runners
    else report (ltb_ℤ ss.max_runners ss.min_runners) min_above_max

unfoldable pub validate_scale_set : Packages → Text → ScaleSet → List Problem
validate_scale_set k config_url ss =
    report (not (k.is_scale_set_name ss.name)) scale_set_name
    ++ (label_problems k ss.labels
        ++ (group_problems k config_url ss.runner_group
            ++ (report
                  (not (ss.max_lifetime == pos 0)
                    && (ltb_ℤ ss.max_lifetime min_max_lifetime
                        || ltb_ℤ max_max_lifetime ss.max_lifetime))
                  lifetime_range
                ++ (report (ltb_ℤ ss.min_runners (pos 0)) negative_min ++ runner_problems ss))))

abbrev pub min_cores : ℤ
min_cores = pos 1

abbrev pub min_memory_mib : ℤ
min_memory_mib = pos 1024

unfoldable pub validate_worker : Config.Worker → List Problem
validate_worker w =
    report (not (w.cores == pos 0) && ltb_ℤ w.cores min_cores) few_cores
    ++ (report (not (w.memory_mib == pos 0) && ltb_ℤ w.memory_mib min_memory_mib) little_memory
        ++ report (ltb_ℤ w.free_disk_gib (pos 0)) negative_disk)

-- `Validate`: no problems means valid settings.
unfoldable pub validate : Packages → Settings → List Problem
validate k s =
    validate_network k s.network
    ++ (report (not (k.is_id s.proxmox.storage)) storage_id
        ++ (range_problems s.proxmox.vmid_range s.scale_set.max_runners
            ++ (validate_github k s.github
                ++ (validate_scale_set k s.github.config_url s.scale_set
                    ++ validate_worker s.worker))))
