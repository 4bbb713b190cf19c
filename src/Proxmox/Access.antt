-- ===== src/Proxmox/Access.antt =====
-- internal/proxmox/access.go: the version of Proxmox VE, what a storage accepts, and the permissions
-- of the controller's token. The calls of the API are left out.
pub mod Paths
pub mod Above
use proxmox_actions_runners.Prelude.{
  ℕ, zero, suc, ◌+◌, ℤ, pos, nat_beq, ◌==◌, text_eq, ◌≡◌, ◌≢◌, Bool, true, false, not, ◌||◌, List,
  [], ◌∷◌, ◌++◌, Text, Option, none, some, is_some, get_or, codes, is_empty, contains, lookup,
  if◌then◌else◌,
}
use proxmox_actions_runners.Prelude.Lists.{length, take}
use proxmox_actions_runners.Prelude.Number.{parse_int}
use proxmox_actions_runners.Prelude.Strings.{split}

pub record Version : Type 0 where
  pub version : Text
  pub release : Text

abbrev pub first_part : List Text → Text
first_part [] = []
first_part (t ∷ ts) = t

-- `Version.Major`
unfoldable pub major : Version → ℤ
major v =
    let s = if is_empty v.release then v.version else v.release in
    get_or (parse_int (first_part (split b'.' s))) (pos 0)

pub record StorageStatus : Type 0 where
  pub kind : Text
  pub active : Bool
  pub enabled : Bool
  pub shared : Bool
  pub content : List Text
  pub total_bytes : ℤ
  pub avail_bytes : ℤ
  pub used_bytes : ℤ

-- `StorageStatus.Accepts`
unfoldable pub accepts : StorageStatus → Text → Bool
accepts s content = contains s.content content

-- Each path's privileges, with whether they propagate.
abbrev pub Permissions : Type 0
Permissions = List (Text × List (Text × Bool))

-- `p[path][priv]`; a map that isn't there is read as an empty one.
abbrev pub granted : Permissions → Text → Text → Option Bool
granted p path priv = lookup priv (get_or (lookup path p) [])

-- `strings.LastIndex` of one byte.
unfoldable pub last_index : ℕ → Text → Option ℕ
last_index x [] = none
last_index x (c ∷ s) = elim (last_index x s) [
  | some i ↦ some (suc i)
  | none ↦ if nat_beq c x then some 0 else none
]

abbrev pub slash : Text
slash = codes "/"

abbrev pub up_to : Text → Option ℕ → Text
up_to path none = slash
up_to path (some zero) = slash
up_to path (some (suc i)) = take (suc i) path

-- `parentPath`
unfoldable pub parent_path : Text → Text
parent_path path = if path == slash || is_empty path then [] else up_to path (last_index b'/' path)

-- The loop over a path and those above it.
unfoldable pub has_above : ℕ → Permissions → Text → Text → Bool
has_above zero p parent priv = false
has_above (suc fuel) p parent priv =
    let rest = has_above fuel p (parent_path parent) priv in
    if is_empty parent then false else if get_or (granted p parent priv) false then true else rest

-- `Permissions.Has`
unfoldable pub has : Permissions → Text → Text → Bool
has p path priv =
    is_some (granted p path priv) || has_above (suc (length path)) p (parent_path path) priv

pub record Requirement : Type 0 where
  pub path : Text
  pub privileges : List Text

abbrev pub pool_privileges : List Text
pool_privileges =
    codes "VM.Allocate"
    ∷ codes "VM.Clone"
    ∷ codes "VM.Config.CPU"
    ∷ codes "VM.Config.Memory"
    ∷ codes "VM.Config.Disk"
    ∷ codes "VM.Config.Network"
    ∷ codes "VM.Config.Cloudinit"
    ∷ codes "VM.Config.Options"
    ∷ codes "VM.PowerMgmt"
    ∷ codes "VM.Audit"
    ∷ codes "VM.GuestAgent.Audit"
    ∷ codes "VM.GuestAgent.FileWrite"
    ∷ codes "Pool.Audit"
    ∷ []

abbrev pub storage_privileges : List Text
storage_privileges = codes "Datastore.AllocateSpace" ∷ codes "Datastore.Audit" ∷ []

abbrev pub vnet_privileges : List Text
vnet_privileges = codes "SDN.Use" ∷ []

-- `RequiredPrivileges`
unfoldable pub required_privileges : (pool storage zone vnet : Text) → List Requirement
required_privileges pool storage zone vnet =
    (record { path = codes "/pool/" ++ pool; privileges = pool_privileges })
    ∷ (record { path = codes "/storage/" ++ storage; privileges = storage_privileges })
    ∷ (record {
      path = codes "/sdn/zones/" ++ (zone ++ (codes "/" ++ vnet));
      privileges = vnet_privileges;
    })
    ∷ []

unfoldable pub missing_of : Permissions → Text → List Text → List Text
missing_of p path [] = []
missing_of p path (priv ∷ privs) =
    let rest = missing_of p path privs in if not (has p path priv) then priv ∷ rest else rest

-- `Permissions.Missing`
unfoldable pub missing : Permissions → Requirement → List Text
missing p req = missing_of p req.path req.privileges
