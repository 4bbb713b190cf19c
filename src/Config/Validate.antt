-- ===== src/Config/Validate.antt =====
-- internal/config/validate.go: every problem of a configuration, in order. A problem is its field and
-- what is wrong; packages net/url, path/filepath and regexp, and `ParseGitHubURL`, are parameters.
use proxmox_actions_runners.Prelude.{
  ℕ, suc, ℤ, pos, ◌+ℤ◌, ltb_ℤ, max_ℤ, leb_ℤ, ◌==◌, int_eq, text_eq, Bool, true, false, ◌||◌, ◌&&◌,
  not, List, [], ◌∷◌, ◌++◌, Text, Option, none, some, codes, is_empty, is_some, if◌then◌else◌,
  lookup, insert,
}
use proxmox_actions_runners.Prelude.Int.{wrap64}
use proxmox_actions_runners.Prelude.Strings.{to_lower}
use proxmox_actions_runners.Prelude.Number.{itoa}
use proxmox_actions_runners.Prelude.Time.{Duration, minutes, hours}
use proxmox_actions_runners.Config
use proxmox_actions_runners.Config.{Config, VmidRange}
use proxmox_actions_runners.Config.Defaults.{Url, proxmox_api_path, default_runner_group}
use proxmox_actions_runners.Config.Range.{size, reserved_vmids}

pub data What : Type 0 where
  is_required not_absolute less_than not_a_url not_https wrong_path : What
  with_fingerprint start_after_end not_github negative invalid_name : What
  name_taken label_taken wrong_group not_one above_max out_of_range too_few_ids none_given : What

pub record Problem : Type 0 where
  pub field : Text
  pub what : What

-- What the checks use of other packages.
pub record Checks : Type 0 where
  pub parse_url : Text → Option Url
  pub is_abs : Text → Bool
  pub is_scale_set_name : Text → Bool
  -- The owner and the repository of a GitHub URL.
  pub parse_github_url : Text → Option (Text × Text)

abbrev pub problem_if : Bool → Text → What → List Problem
problem_if true field what = record { field = field; what = what } ∷ []
problem_if false field what = []

abbrev pub required : Text → Text → List Problem
required field value = problem_if (is_empty value) field is_required

abbrev pub abs_path : Checks → Text → Text → List Problem
abs_path k field value =
    if is_empty value
    then required field value
    else problem_if (not (k.is_abs value)) field not_absolute

abbrev pub at_least : Text → ℤ → ℤ → List Problem
at_least field value lo = problem_if (ltb_ℤ value lo) field less_than

abbrev pub min_vmid : ℤ
min_vmid = pos 100

abbrev pub min_max_lifetime : Duration
min_max_lifetime = minutes 10

abbrev pub max_max_lifetime : Duration
max_max_lifetime = hours 120

abbrev pub url_problems : Option Url → List Problem
url_problems none = problem_if true (codes "proxmox.url") not_a_url
url_problems (some u) =
    if not (u.scheme == codes "https") || is_empty u.host
    then problem_if true (codes "proxmox.url") not_https
    else problem_if
        (not (u.path == proxmox_api_path)
          || (not (is_empty u.raw_query) || (not (is_empty u.fragment) || u.has_user)))
        (codes "proxmox.url") wrong_path

unfoldable pub validate_range : VmidRange → List Problem
validate_range r =
    at_least (codes "proxmox.vmidRange.start") r.start min_vmid
    ++ problem_if (ltb_ℤ r.end r.start) (codes "proxmox.vmidRange") start_after_end

unfoldable pub validate_proxmox : Checks → Config.Proxmox → List Problem
validate_proxmox k p =
    (if is_empty p.url
      then required (codes "proxmox.url") p.url
      else url_problems (k.parse_url p.url))
    ++ (required (codes "proxmox.tokenId") p.token_id
        ++ (abs_path k (codes "proxmox.tokenSecretFile") p.token_secret_file
            ++ ((if is_empty p.ca_cert_file
                  then []
                  else abs_path k (codes "proxmox.caCertFile") p.ca_cert_file
                    ++ problem_if (not (is_empty p.tls_fingerprint)) (codes "proxmox.caCertFile")
                        with_fingerprint)
                ++ (required (codes "proxmox.node") p.node
                    ++ (required (codes "proxmox.pool") p.pool
                        ++ (required (codes "proxmox.storage") p.storage
                            ++ (required (codes "proxmox.vnet") p.vnet
                                ++ validate_range p.vmid_range)))))))

unfoldable pub validate_github : Checks → Config.GitHub → List Problem
validate_github k g =
    problem_if (not (is_empty g.config_url) && not (is_some (k.parse_github_url g.config_url)))
      (codes "github.configUrl") not_github
    ++ (problem_if (ltb_ℤ g.app.installation_id (pos 0)) (codes "github.app.installationId")
          negative
        ++ (if is_empty g.app.private_key_file
            then []
            else abs_path k (codes "github.app.privateKeyFile") g.app.private_key_file))

unfoldable pub validate_worker : Config.Worker → Text → List Problem
validate_worker w prefix =
    at_least (prefix ++ codes ".cores") w.cores (pos 1)
    ++ (at_least (prefix ++ codes ".memoryMiB") w.memory_mib (pos 1024)
        ++ at_least (prefix ++ codes ".freeDiskGiB") w.free_disk_gib (pos 1))

-- What `IsRepository` reports of a parsed URL.
abbrev pub names_repository : Option (Text × Text) → Bool
names_repository none = false
names_repository (some (owner, repo)) = not (is_empty repo)

-- The variables of the loop over the scale sets.
pub record Loop : Type 0 where
  pub index : ℕ
  pub names : List (Text × ℕ)
  pub labels : List (Text × Text)
  pub total : ℤ
  pub problems : List Problem

abbrev pub index_text : ℕ → Text
index_text k = b'[' ∷ itoa (pos k) ++ codes "]"

-- The loop over the labels, which GitHub matches in any case.
unfoldable pub validate_labels :
    Text → ℕ → List Text → List (Text × Text) → List (Text × Text) × List Problem
validate_labels prefix k [] owners = (owners, [])
validate_labels prefix k (l ∷ ls) owners =
    let taken = is_some (lookup (to_lower l) owners) in
    let (after, ps) =
      validate_labels prefix (suc k) ls
        (if taken then owners else insert (to_lower l) prefix owners) in
    (after, problem_if taken (prefix ++ codes ".labels" ++ index_text k) label_taken ++ ps)

abbrev pub name_problems : Checks → Text → Text → List Problem
name_problems k prefix name =
    if is_empty name
    then required (prefix ++ codes ".name") name
    else problem_if (not (k.is_scale_set_name name)) (prefix ++ codes ".name") invalid_name

-- The checks of one scale set's numbers.
unfoldable pub validate_numbers : Text → Config.ScaleSet → List Problem
validate_numbers prefix s =
    problem_if (ltb_ℤ s.min_runners (pos 0)) (prefix ++ codes ".minRunners") negative
    ++ (problem_if (ltb_ℤ s.max_runners (pos 1)) (prefix ++ codes ".maxRunners") not_one
        ++ (problem_if (ltb_ℤ s.max_runners s.min_runners) (prefix ++ codes ".minRunners") above_max
            ++ (problem_if
                  (ltb_ℤ s.max_lifetime min_max_lifetime || ltb_ℤ max_max_lifetime s.max_lifetime)
                  (prefix ++ codes ".maxLifetime") out_of_range
                ++ validate_worker s.worker (prefix ++ codes ".worker"))))

-- One round of the loop over the scale sets.
unfoldable pub validate_scale_set : Checks → Bool → Loop → Config.ScaleSet → Loop
validate_scale_set k repository v s =
    let prefix = codes "scaleSets" ++ index_text v.index in
    let taken = is_some (lookup s.name v.names) && not (is_empty s.name) in
    let (owners, label_problems) = validate_labels prefix 0 s.labels v.labels in
    record {
      index = suc v.index;
      names = if taken then v.names else insert s.name v.index v.names;
      labels = owners;
      total = wrap64 (v.total +ℤ max_ℤ s.max_runners (pos 0));
      problems =
          v.problems
          ++ (name_problems k prefix s.name
              ++ (problem_if taken (prefix ++ codes ".name") name_taken
                  ++ (label_problems
                      ++ (problem_if (repository && not (s.runner_group == default_runner_group))
                            (prefix ++ codes ".runnerGroup") wrong_group
                          ++ validate_numbers prefix s))));
    }

unfoldable pub validate_loop : Checks → Bool → Loop → List Config.ScaleSet → Loop
validate_loop k repository v [] = v
validate_loop k repository v (s ∷ ss) =
    validate_loop k repository (validate_scale_set k repository v s) ss

-- The range must hold a VMID for each runner and the reserved ones.
unfoldable pub capacity_problems : VmidRange → ℤ → List Problem
capacity_problems r total =
    problem_if
      (leb_ℤ min_vmid r.start
        && (leb_ℤ r.start r.end && ltb_ℤ (size r) (wrap64 (total +ℤ reserved_vmids))))
      (codes "proxmox.vmidRange") too_few_ids

abbrev pub start_loop : Loop
start_loop = record { index = 0; names = []; labels = []; total = pos 0; problems = [] }

unfoldable pub validate_scale_sets : Checks → Config → List Problem
validate_scale_sets k c = elim c.scale_sets [
  | [] ↦ problem_if true (codes "scaleSets") none_given
  | s ∷ ss ↦
      let repository = names_repository (k.parse_github_url c.github.config_url) in
      let v = validate_loop k repository start_loop (s ∷ ss) in
      v.problems ++ capacity_problems c.proxmox.vmid_range v.total
]

-- `validate`: no problems means a valid configuration.
unfoldable pub validate : Checks → Config → List Problem
validate k c =
    validate_proxmox k c.proxmox
    ++ (validate_github k c.github
        ++ (validate_worker c.worker (codes "worker") ++ validate_scale_sets k c))
