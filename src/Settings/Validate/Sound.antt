-- ===== src/Settings/Validate/Sound.antt =====
-- internal/settings/settings.go: what holds of settings that have no problem.
use proxmox_actions_runners.Prelude.{
  ℤ, pos, ◌+ℤ◌, ◌≤ℤ◌, ◌≡◌, ◌⊎◌, refl, Bool, true, false, not, ◌&&◌, ◌||◌, ltb_ℤ, List, [], ◌∷◌,
  ◌++◌, Text, arith, beq_ℤ, is_empty, text_beq_iff,
}
use proxmox_actions_runners.Prelude.Int.{wrap64, beq_ℤ_iff}
use proxmox_actions_runners.Config.Defaults.{default_runner_group}
use proxmox_actions_runners.Config.Range.{size, reserved_vmids}
use proxmox_actions_runners.Config.Validate.{names_repository, min_max_lifetime, max_max_lifetime}
use proxmox_actions_runners.Settings.{Settings, GitHub, ScaleSet}
use proxmox_actions_runners.Settings.Validate.{
  Packages, Problem, report, validate_network, range_problems, validate_github, label_problems,
  group_problems, runner_problems, validate_scale_set, validate_worker, validate, min_cores,
  min_memory_mib,
}
use proxmox_actions_runners.Config
use proxmox_actions_runners.Config.{VmidRange}

pub append-nil_inv {ℓ} : {A : Type ℓ} (xs ys : List A) → xs ++ ys ≡ [] → (xs ≡ []) × (ys ≡ [])
append-nil_inv [] ys h = (refl, h)
append-nil_inv (x ∷ xs) ys h = cc

-- What the controller needs of the settings.
pub record IsValid (k : Packages) (s : Settings) : Type 0 where
  pub storage_lem : k.is_id s.proxmox.storage ≡ true
  pub start_lem : pos 100 ≤ℤ s.proxmox.vmid_range.start
  pub order_lem : s.proxmox.vmid_range.start ≤ℤ s.proxmox.vmid_range.end
  pub room_lem : wrap64 (s.scale_set.max_runners +ℤ reserved_vmids) ≤ℤ size s.proxmox.vmid_range
  pub url_lem : (s.github.config_url ≡ []) ⊎ (k.is_github_url s.github.config_url ≡ true)
  pub installation_lem : pos 0 ≤ℤ s.github.app.installation_id
  pub name_lem : k.is_scale_set_name s.scale_set.name ≡ true
  pub group_lem : k.is_runner_group s.scale_set.runner_group ≡ true
  pub repository_lem :
      (s.github.config_url ≡ [])
      ⊎ (names_repository (k.parse_github_url s.github.config_url) ≡ false)
      ⊎ (s.scale_set.runner_group ≡ default_runner_group)
  pub lifetime_lem :
      (s.scale_set.max_lifetime ≡ pos 0)
      ⊎ ((min_max_lifetime ≤ℤ s.scale_set.max_lifetime)
          × (s.scale_set.max_lifetime ≤ℤ max_max_lifetime))
  pub min_lem : pos 0 ≤ℤ s.scale_set.min_runners
  pub max_lem : pos 1 ≤ℤ s.scale_set.max_runners
  pub min_max_lem : s.scale_set.min_runners ≤ℤ s.scale_set.max_runners
  pub cores_lem : (s.worker.cores ≡ pos 0) ⊎ (min_cores ≤ℤ s.worker.cores)
  pub memory_lem : (s.worker.memory_mib ≡ pos 0) ⊎ (min_memory_mib ≤ℤ s.worker.memory_mib)
  pub disk_lem : pos 0 ≤ℤ s.worker.free_disk_gib

range_lem :
    (r : VmidRange) (n : ℤ)
    → range_problems r n ≡ []
    → (pos 100 ≤ℤ r.start) × (r.start ≤ℤ r.end) × (wrap64 (n +ℤ reserved_vmids) ≤ℤ size r)
unfolding range_problems
range_lem r n h = ground arith

is_empty-nil : (t : Text) → is_empty t ≡ true → t ≡ []
is_empty-nil [] h = refl
is_empty-nil (c ∷ t) h = cc

github_lem :
    (k : Packages) (g : GitHub)
    → validate_github k g ≡ []
    → ((g.config_url ≡ []) ⊎ (k.is_github_url g.config_url ≡ true))
      × (pos 0 ≤ℤ g.app.installation_id)
unfolding validate_github
github_lem k g h = ground (arith, is_empty-nil g.config_url)

group_problems_lem :
    (k : Packages) (url group : Text)
    → group_problems k url group ≡ []
    → (k.is_runner_group group ≡ true)
      × ((url ≡ [])
          ⊎ (names_repository (k.parse_github_url url) ≡ false)
          ⊎ (group ≡ default_runner_group))
group_problems_lem k url group h =
    ground (arith, is_empty-nil url, text_beq_iff group default_runner_group)

runners_lem :
    (ss : ScaleSet)
    → runner_problems ss ≡ []
    → (pos 1 ≤ℤ ss.max_runners) × (ss.min_runners ≤ℤ ss.max_runners)
runners_lem ss h = ground arith

lifetime_range_lem :
    (d : ℤ)
    → report
        (not (beq_ℤ d (pos 0)) && (ltb_ℤ d min_max_lifetime || ltb_ℤ max_max_lifetime d))
        Problem.lifetime_range
      ≡ []
    → (d ≡ pos 0) ⊎ ((min_max_lifetime ≤ℤ d) × (d ≤ℤ max_max_lifetime))
lifetime_range_lem d h = ground (arith, beq_ℤ_iff d (pos 0))

worker_lem :
    (w : Config.Worker)
    → validate_worker w ≡ []
    → ((w.cores ≡ pos 0) ⊎ (min_cores ≤ℤ w.cores))
      × ((w.memory_mib ≡ pos 0) ⊎ (min_memory_mib ≤ℤ w.memory_mib))
      × (pos 0 ≤ℤ w.free_disk_gib)
unfolding validate_worker
worker_lem w h = ground (arith, beq_ℤ_iff w.cores (pos 0), beq_ℤ_iff w.memory_mib (pos 0))

report_inv : (b : Bool) (p : Problem) → report b p ≡ [] → b ≡ false
report_inv true p h = cc
report_inv false p h = refl

not-false : (b : Bool) → not b ≡ false → b ≡ true
not-false b h = ground arith

not_below : (z : ℤ) → ltb_ℤ z (pos 0) ≡ false → pos 0 ≤ℤ z
not_below z h = ground arith

-- Settings without a problem are valid.
pub validate-IsValid : (k : Packages) (s : Settings) → validate k s ≡ [] → IsValid k s
unfolding validate validate_scale_set
validate-IsValid k s h =
    let ss = s.scale_set in
    let (network, h1) = append-nil_inv (validate_network k s.network) _ h in
    let (storage, h2) =
      append-nil_inv (report (not (k.is_id s.proxmox.storage)) Problem.storage_id) _ h1 in
    let (range, h3) = append-nil_inv (range_problems s.proxmox.vmid_range ss.max_runners) _ h2 in
    let (github, h4) = append-nil_inv (validate_github k s.github) _ h3 in
    let (scale, work) = append-nil_inv (validate_scale_set k s.github.config_url ss) _ h4 in
    let (name, g1) =
      append-nil_inv (report (not (k.is_scale_set_name ss.name)) Problem.scale_set_name) _ scale in
    let (labels, g2) = append-nil_inv (label_problems k ss.labels) _ g1 in
    let (group, g3) = append-nil_inv (group_problems k s.github.config_url ss.runner_group) _ g2 in
    let (life, g4) = append-nil_inv _ _ g3 in
    let (low, many) =
      append-nil_inv (report (ltb_ℤ ss.min_runners (pos 0)) Problem.negative_min) _ g4 in
    let (start, order, room) = range_lem s.proxmox.vmid_range ss.max_runners range in
    let (url, installation) = github_lem k s.github github in
    let (grouped, repository) = group_problems_lem k s.github.config_url ss.runner_group group in
    let (max, min_max) = runners_lem ss many in
    let (cores, memory, disk) = worker_lem s.worker work in
    record {
      storage_lem = not-false _ (report_inv _ _ storage);
      start_lem = start;
      order_lem = order;
      room_lem = room;
      url_lem = url;
      installation_lem = installation;
      name_lem = not-false _ (report_inv _ _ name);
      group_lem = grouped;
      repository_lem = repository;
      lifetime_lem = lifetime_range_lem ss.max_lifetime life;
      min_lem = not_below _ (report_inv _ _ low);
      max_lem = max;
      min_max_lem = min_max;
      cores_lem = cores;
      memory_lem = memory;
      disk_lem = disk;
    }
