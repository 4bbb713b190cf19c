-- ===== src/Examples/Access.antt =====
-- The permissions of the controller's token at concrete inputs.
use proxmox_actions_runners.Prelude.{
  ◌≡◌, ◌↔◌, ◌⊎◌, Bool, true, false, get_or, text_eq, List, [], ◌∷◌, map, Text, is_some, contains,
  lookup, codes, arith, text_beq, text_beq_iff,
}
use proxmox_actions_runners.Prelude.Lists.{All}
use proxmox_actions_runners.Settings.{Settings, default_settings}
use proxmox_actions_runners.Proxmox.Access.{Permissions, Requirement, granted, missing, has}
use proxmox_actions_runners.Proxmox.Access.Above.{Above, has_iff}
use proxmox_actions_runners.Installer.Access.{all_privileges, granted_paths}
use proxmox_actions_runners.Installer.Access.Enough.{
  role_privileges, requirements, Grants, Grants-enough,
}

abbrev local_settings : Settings
local_settings = default_settings

abbrev propagated : Text → Text × Bool
propagated t = (t, true)

abbrev token_permissions : Permissions
token_permissions =
    map (λ path. (path, map propagated role_privileges)) (granted_paths local_settings)

lookup-propagated :
    (xs : List Text) (t : Text)
    → contains xs t ≡ true
    → is_some (lookup t (map propagated xs)) ≡ true
unfolding contains lookup
lookup-propagated [] t h = cc
lookup-propagated (x ∷ xs) t h = ground (arith, h, text_beq_iff x t, lookup-propagated xs t)

granted-All : All (Grants token_permissions) (granted_paths local_settings)
unfolding lookup text_beq
granted-All = (lookup-propagated _, (lookup-propagated _, (lookup-propagated _, tt)))

Grants-enough_example :
    All
      (λ (r : Requirement). missing token_permissions r ≡ [])
      (requirements local_settings.proxmox.storage)
    × ((priv : Text)
        → (contains role_privileges priv ≡ true)
          ↔ (contains (all_privileges (requirements local_settings.proxmox.storage)) priv ≡ true))
Grants-enough_example = Grants-enough token_permissions local_settings granted-All

-- Granted at the top, and propagated.
abbrev top_permissions : Permissions
top_permissions = (codes "/", (codes "SDN.Use", true) ∷ []) ∷ []

has_iff_example : (has top_permissions (codes "/sdn/zones") (codes "SDN.Use") ≡ true) ↔ (
    (is_some (granted top_permissions (codes "/sdn/zones") (codes "SDN.Use")) ≡ true)
    ⊎ ((a : Text) × Above (codes "/sdn/zones") a
        × (get_or (granted top_permissions a (codes "SDN.Use")) false ≡ true)))
has_iff_example = has_iff top_permissions (codes "/sdn/zones") (codes "SDN.Use")
