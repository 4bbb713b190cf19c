-- ===== src/Installer/Access/Enough.antt =====
-- internal/installer/steps.go: the privileges that the installer grants are those that the controller
-- checks for.
use proxmox_actions_runners.Prelude.{
  ◌≡◌, ◌↔◌, refl, true, text_eq, List, [], ◌∷◌, Text, is_some, contains, text_beq, arith,
}
use proxmox_actions_runners.Prelude.Strings.{split, text_less}
use proxmox_actions_runners.Prelude.TextSets.{sort_texts, compact, insert_text, covers}
use proxmox_actions_runners.Prelude.TextSets.Same.{covers_at}
use proxmox_actions_runners.Prelude.Lists.{All}
use proxmox_actions_runners.Settings.{Settings}
use proxmox_actions_runners.Proxmox.Access.{
  Permissions, Requirement, granted, required_privileges, missing, missing_of, has,
}
use proxmox_actions_runners.Installer.{runner_pool, vnet}
use proxmox_actions_runners.Installer.Network.{zone}
use proxmox_actions_runners.Installer.Access.{
  all_privileges, join_commas, privileges, granted_paths,
}

-- The role's privileges, one by one.
abbrev pub role_privileges : List Text
role_privileges = split b',' privileges

-- What the controller checks for, with some storage.
abbrev pub requirements : Text → List Requirement
requirements storage = required_privileges runner_pool storage zone vnet

covers_each_other :
    (s : Text)
    → (covers (all_privileges (requirements s)) role_privileges ≡ true)
      × (covers role_privileges (all_privileges (requirements s)) ≡ true)
unfolding privileges split all_privileges join_commas compact sort_texts insert_text text_less
    text_beq covers contains required_privileges
covers_each_other s = (refl, refl)

-- Proxmox has granted each of the role's privileges on a path.
abbrev pub Grants : Permissions → Text → Type 0
Grants p path =
    (priv : Text) → contains role_privileges priv ≡ true → is_some (granted p path priv) ≡ true

missing_of-none :
    (p : Permissions) (path : Text) (privs : List Text)
    → Grants p path
    → covers privs role_privileges ≡ true
    → missing_of p path privs ≡ []
unfolding missing_of covers has
missing_of-none p path [] g h = refl
missing_of-none p path (x ∷ privs) g h = ground (arith, h, g x, missing_of-none p path privs g)

-- If Proxmox grants the role's privileges on each path that grantACLs gives the role on, then the
-- controller misses no privilege that it requires on the runner pool, the settings' storage and the
-- VNet; and the role has a privilege exactly if the controller requires it somewhere.
pub Grants-enough :
    (p : Permissions) (s : Settings)
    → All (Grants p) (granted_paths s)
    → All (λ (r : Requirement). missing p r ≡ []) (requirements s.proxmox.storage)
      × ((priv : Text)
          → (contains role_privileges priv ≡ true)
            ↔ (contains (all_privileges (requirements s.proxmox.storage)) priv ≡ true))
unfolding required_privileges missing privileges split all_privileges join_commas compact sort_texts
    insert_text text_less text_beq covers contains
Grants-enough p s (pool, (storage, (vnet_path, end))) = (
  (
    missing_of-none p _ _ pool refl,
    (missing_of-none p _ _ storage refl, (missing_of-none p _ _ vnet_path refl, tt)),
  ),
  λ priv. (
    covers_at role_privileges (all_privileges (requirements s.proxmox.storage)) priv
        (covers_each_other s.proxmox.storage).1,
    covers_at (all_privileges (requirements s.proxmox.storage)) role_privileges priv
        (covers_each_other s.proxmox.storage).0,
  ),
)
