-- ===== src/Installer/Access.antt =====
-- internal/installer/steps.go and uninstall.go: the pools, the role, the user with its token, and its ACLs.
pub mod Enough
use proxmox_actions_runners.Prelude.{
  ◌==◌, text_eq, Bool, not, ◌||◌, List, [], ◌∷◌, ◌++◌, map, Text, none, some, codes, contains,
  has_prefix, if◌then◌else◌,
}
use proxmox_actions_runners.Prelude.Results.{Result, ok, err}
use proxmox_actions_runners.Prelude.TextSets.{sort_texts, compact}
use proxmox_actions_runners.Proxmox.Access.{Requirement, required_privileges}
use proxmox_actions_runners.Settings.{Settings}
use proxmox_actions_runners.Installer.{
  Command, Host, Outcome, run, and_then, run_each, system_pool, runner_pool, vnet,
}
use proxmox_actions_runners.Installer.Network.{zone}

abbrev pub role : Text
role = codes "PARController"

abbrev pub pve_user : Text
pve_user = codes "par@pve"

abbrev pub token_name : Text
token_name = codes "controller"

abbrev pub pool_comment : Text
pool_comment = codes "proxmox-actions-runners"

unfoldable pub all_privileges : List Requirement → List Text
all_privileges [] = []
all_privileges (r ∷ rs) = r.privileges ++ all_privileges rs

-- `strings.Join` with commas.
unfoldable pub join_commas : List Text → Text
join_commas [] = []
join_commas (t ∷ []) = t
join_commas (t ∷ u ∷ ts) = t ++ b',' ∷ join_commas (u ∷ ts)

-- `privileges`
unfoldable pub privileges : Text
privileges = join_commas (
    compact
      (sort_texts (all_privileges (required_privileges runner_pool (codes "storage") zone vnet))))

-- internal/pvecli/pve.go: one access control entry.
pub record Acl : Type 0 where
  pub path : Text
  pub kind : Text
  pub ugid : Text
  pub role : Text

-- What the node lists: pools, roles and users by name, access control entries, and a user's tokens.
pub record Listings : Type 0 where
  pub pools : List Command → Result Text (List Text)
  pub roles : List Command → Result Text (List Text)
  pub users : List Command → Result Text (List Text)
  pub acls : List Command → Result Text (List Acl)
  pub tokens : List Command → Result Text (List Text)

-- A listing that fails ends the operation.
abbrev pub listing {ℓ} : {A : Type ℓ} → Result Text A → List Command → (A → Outcome) → Outcome
listing (err e) log next = (some e, log)
listing (ok a) log next = next a

abbrev pub pool_command : Text → Command
pool_command pool =
    codes "pveum" ∷ codes "pool" ∷ codes "add" ∷ pool ∷ codes "--comment" ∷ pool_comment ∷ []

abbrev pub role_command : (verb privileges : Text) → Command
role_command verb privileges =
    codes "pveum" ∷ codes "role" ∷ verb ∷ role ∷ codes "--privs" ∷ privileges ∷ []

abbrev pub user_command : Command
user_command =
    codes "pveum"
    ∷ codes "user"
    ∷ codes "add"
    ∷ pve_user
    ∷ codes "--comment"
    ∷ codes "proxmox-actions-runners controller"
    ∷ []

unfoldable pub add_pools : Host → List Text → List Text → List Command → Outcome
unfolding run and_then
add_pools host known [] log = (none, log)
add_pools host known (p ∷ ps) log =
    let skip = add_pools host known ps log in
    let added = and_then (run host (pool_command p) log) (add_pools host known ps) in
    if contains known p then skip else added

-- `createAccess`
unfoldable pub create_access : Host → Listings → List Command → Outcome
unfolding add_pools and_then run contains
create_access host lists log = listing (lists.pools log) log λ pools.
    and_then (add_pools host pools (system_pool ∷ runner_pool ∷ []) log) λ log1.
      listing (lists.roles log1) log1 λ roles.
        let verb = if contains roles role then codes "modify" else codes "add" in
        and_then (run host (role_command verb privileges) log1) λ log2.
          listing (lists.users log2) log2
            λ users. if contains users pve_user then (none, log2) else run host user_command log2

abbrev pub acl_path_command : Text → Command
acl_path_command path =
    codes "pveum"
    ∷ codes "acl"
    ∷ codes "modify"
    ∷ path
    ∷ codes "--users"
    ∷ pve_user
    ∷ codes "--tokens"
    ∷ (pve_user ++ codes "!" ++ token_name)
    ∷ codes "--roles"
    ∷ role
    ∷ []

abbrev pub granted_paths : Settings → List Text
granted_paths s =
    (codes "/pool/" ++ runner_pool)
    ∷ (codes "/storage/" ++ s.proxmox.storage)
    ∷ (codes "/sdn/zones/" ++ zone ++ codes "/" ++ vnet)
    ∷ []

unfoldable pub grant_acls : Host → Settings → List Command → Outcome
unfolding run_each
grant_acls host s log = run_each host (map acl_path_command (granted_paths s)) log

abbrev pub is_own_acl : Acl → Bool
is_own_acl a = a.ugid == pve_user || has_prefix a.ugid (pve_user ++ codes "!")

abbrev pub delete_acl_command : Acl → Command
delete_acl_command a =
    codes "pveum"
    ∷ codes "acl"
    ∷ codes "delete"
    ∷ a.path
    ∷ (codes "--" ++ a.kind ++ codes "s")
    ∷ a.ugid
    ∷ codes "--roles"
    ∷ a.role
    ∷ []

unfoldable pub delete_acls : Host → List Acl → List Command → Outcome
unfolding run and_then
delete_acls host [] log = (none, log)
delete_acls host (a ∷ acls) log =
    let skip = delete_acls host acls log in
    let deleted = and_then (run host (delete_acl_command a) log) (delete_acls host acls) in
    if is_own_acl a then deleted else skip

abbrev pub delete_token_command : Command
delete_token_command =
    codes "pveum" ∷ codes "user" ∷ codes "token" ∷ codes "remove" ∷ pve_user ∷ token_name ∷ []

unfoldable pub delete_tokens : Host → List Text → List Command → Outcome
unfolding run and_then
delete_tokens host [] log = (none, log)
delete_tokens host (t ∷ ts) log =
    let skip = delete_tokens host ts log in
    let deleted = and_then (run host delete_token_command log) (delete_tokens host ts) in
    if t == token_name then deleted else skip

-- Tokens that can't be listed are left.
abbrev pub listed_tokens : Result Text (List Text) → List Text
listed_tokens (err e) = []
listed_tokens (ok ts) = ts

abbrev pub delete_user_command : Command
delete_user_command = codes "pveum" ∷ codes "user" ∷ codes "delete" ∷ pve_user ∷ []

unfoldable pub delete_user : Host → Listings → List Command → Outcome
unfolding delete_acls delete_tokens and_then run
delete_user host lists log = listing (lists.acls log) log λ acls.
    and_then (delete_acls host acls log) λ log1.
      and_then (delete_tokens host (listed_tokens (lists.tokens log1)) log1)
        (run host delete_user_command)

unfoldable pub delete_users : Host → Listings → List Text → List Command → Outcome
unfolding delete_user and_then
delete_users host lists [] log = (none, log)
delete_users host lists (u ∷ us) log =
    let skip = delete_users host lists us log in
    let deleted = and_then (delete_user host lists log) (delete_users host lists us) in
    if not (u == pve_user) then skip else deleted

abbrev pub delete_pool_command : Text → Command
delete_pool_command pool = codes "pveum" ∷ codes "pool" ∷ codes "delete" ∷ pool ∷ []

-- A pool that isn't empty stays.
unfoldable pub delete_pools : Host → List Text → List Command → List Command
unfolding run
delete_pools host [] log = log
delete_pools host (p ∷ ps) log =
    delete_pools host ps (
      if p == system_pool || p == runner_pool
      then (run host (delete_pool_command p) log).1
      else log)

unfoldable pub remove_access : Host → Listings → List Command → Outcome
unfolding delete_pools delete_users and_then run contains
remove_access host lists log = listing (lists.pools log) log λ pools.
    let log1 = delete_pools host pools log in
    listing (lists.users log1) log1 λ users. and_then (delete_users host lists users log1) λ log2.
      listing (lists.roles log2) log2 λ roles.
        if contains roles role
        then run host (codes "pveum" ∷ codes "role" ∷ codes "delete" ∷ role ∷ []) log2
        else (none, log2)
