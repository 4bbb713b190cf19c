-- ===== src/Settings/Render/Accepted.antt =====
-- internal/settings/render.go: valid settings make a configuration that the controller accepts.
use proxmox_actions_runners.Prelude.{
  ℤ, pos, ◌≤ℤ◌, ◌≡◌, ◌≢◌, ◌⊎◌, refl, inl, inr, Bool, true, false, List, [], ◌∷◌, Text, is_some,
  codes, arith, text_eq, int_eq,
}
use proxmox_actions_runners.Prelude.Int.{Fits64, beq_ℤ_iff}
use proxmox_actions_runners.Config
use proxmox_actions_runners.Config.{Config, VmidRange}
use proxmox_actions_runners.Config.Defaults.{
  UrlPackage, trim_slash, or_base, or_name, or_text, with_defaults, default_worker,
  default_runner_group, default_max_lifetime, default_scale_set, default_scale_sets, apply_defaults,
}
use proxmox_actions_runners.Config.Validate
use proxmox_actions_runners.Config.Validate.{
  Checks, Problem, problem_if, required, validate_range, url_problems, names_repository,
  validate_proxmox, validate_github, validate_worker, validate_labels, name_problems,
  validate_numbers, validate_scale_set, validate_loop, capacity_problems, start_loop, index_text,
  validate_scale_sets, validate,
}
use proxmox_actions_runners.Settings
use proxmox_actions_runners.Settings.{Settings}
use proxmox_actions_runners.Settings.Validate.{Packages}
use proxmox_actions_runners.Settings.Validate.Sound.{IsValid, validate-IsValid}
use proxmox_actions_runners.Settings.Render.{
  Env, TlsInfo, TlsMode, node_ca, system_cas, pinned, with_tls, controller_proxmox,
  controller_scale_set, controller_config,
}
use proxmox_actions_runners.Settings.Render.Fields.{
  Agree, Distinct, nil-append, non_empty, proxmox-fine, app-fine, worker-fine, numbers-fine,
  scale_set-fine, validate_scale_set-total, capacity-fine, with_defaults-zero,
}

-- The one scale set of the rendered configuration, with its defaults.
abbrev defaulted : Settings → Config.ScaleSet
defaulted s =
    default_scale_set (with_defaults s.worker default_worker) (controller_scale_set s.scale_set)

default_scale_set_lem :
    (base : Config.Worker) (x : Config.ScaleSet)
    → default_scale_set base x ≡ record x {
      labels = or_name x.labels x.name;
      runner_group = or_text x.runner_group default_runner_group;
      max_lifetime = or_base x.max_lifetime default_max_lifetime;
      worker = with_defaults x.worker base;
    }
unfolding default_scale_set
default_scale_set_lem base x = refl

or_name-Distinct : (ls : List Text) (name : Text) → Distinct ls → Distinct (or_name ls name)
or_name-Distinct [] [] d = tt
or_name-Distinct [] (c ∷ name) d = (tt, tt)
or_name-Distinct (l ∷ ls) name d = d

lifetime-fine :
    (d : ℤ)
    → (d ≡ pos 0) ⊎ ((Validate.min_max_lifetime ≤ℤ d) × (d ≤ℤ Validate.max_max_lifetime))
    → (Validate.min_max_lifetime ≤ℤ or_base d default_max_lifetime)
      × (or_base d default_max_lifetime ≤ℤ Validate.max_max_lifetime)
lifetime-fine d h = ground (arith, beq_ℤ_iff d (pos 0))

repository-fine :
    (p : Packages) (k : Checks) (urls : UrlPackage) (s : Settings) (env : Env)
    → Agree p k urls env
    → IsValid p s
    → trim_slash s.github.config_url ≡ s.github.config_url
    → (names_repository (k.parse_github_url (trim_slash s.github.config_url)) ≡ false)
      ⊎ (s.scale_set.runner_group ≡ default_runner_group)
repository-fine p k urls s env a v t = rw t (by_cases v.repository_lem)
  where
    by_cases :
        (s.github.config_url ≡ [])
          ⊎ (names_repository (p.parse_github_url s.github.config_url) ≡ false)
          ⊎ (s.scale_set.runner_group ≡ default_runner_group)
        → (names_repository (k.parse_github_url s.github.config_url) ≡ false)
          ⊎ (s.scale_set.runner_group ≡ default_runner_group)
    by_cases (inl e) = inl (rw (e, a.nowhere_lem) refl)
    by_cases (inr (inl e)) = inl (rw (a.same_lem s.github.config_url) e)
    by_cases (inr (inr e)) = inr e

trimmed :
    (p : Packages) (k : Checks) (urls : UrlPackage) (env : Env) (url : Text)
    → Agree p k urls env
    → (url ≡ []) ⊎ (p.is_github_url url ≡ true)
    → (trim_slash url ≡ url) × ((url ≡ []) ⊎ (is_some (k.parse_github_url url) ≡ true))
unfolding trim_slash
trimmed p k urls env url a (inl e) = (rw e refl, inl e)
trimmed p k urls env url a (inr m) = (a.slash_lem url m, inr (a.github_lem url m))

set-fine :
    (p : Packages) (k : Checks) (urls : UrlPackage) (s : Settings) (env : Env) (repository : Bool)
    → Agree p k urls env
    → IsValid p s
    → Distinct s.scale_set.labels
    → (repository ≡ false) ⊎ (s.scale_set.runner_group ≡ default_runner_group)
    → (validate_scale_set k repository start_loop (defaulted s)).problems ≡ []
set-fine p k urls s env repository a v d r =
    let ss = s.scale_set in
    let (lo, hi) = lifetime-fine ss.max_lifetime v.lifetime_lem in
    rw
      (
        default_scale_set_lem (with_defaults s.worker default_worker) (controller_scale_set ss),
        with_defaults-zero (with_defaults s.worker default_worker),
        non_empty p.is_runner_group ss.runner_group a.group_lem v.group_lem,
      )
      (scale_set-fine k repository _
        (non_empty p.is_scale_set_name ss.name a.empty_name_lem v.name_lem)
        (a.name_lem ss.name v.name_lem) (or_name-Distinct ss.labels ss.name d) r
        (λ q. numbers-fine _ q v.min_lem v.max_lem v.min_max_lem lo hi (λ w. worker-fine p s w v)))

with_tls-range :
    (tls : TlsInfo) (mode : TlsMode) (p : Config.Proxmox)
    → (with_tls tls mode p).vmid_range ≡ p.vmid_range
with_tls-range tls node_ca p = refl
with_tls-range tls system_cas p = refl
with_tls-range tls pinned p = refl

room-fine :
    (p : Packages) (k : Checks) (s : Settings) (repository : Bool)
    → IsValid p s
    → Fits64 s.scale_set.max_runners
    → capacity_problems s.proxmox.vmid_range
        (validate_scale_set k repository start_loop (defaulted s)).total
      ≡ []
unfolding default_scale_set
room-fine p k s repository v f =
    rw (validate_scale_set-total k repository (defaulted s) v.max_lem f)
      (capacity-fine s.proxmox.vmid_range s.scale_set.max_runners v.room_lem)

-- If the patterns, URLs and paths of the two packages agree (Agree), the node has a name, maxRunners
-- fits a Go int and no two labels differ in case alone, then settings that Settings.Validate accepts
-- make a configuration in which the controller's validation, after its defaults are filled
-- in, finds no problem.
pub controller_config-accepted :
    (p : Packages) (k : Checks) (urls : UrlPackage) (s : Settings) (env : Env)
    → Agree p k urls env
    → env.node ≢ []
    → Fits64 s.scale_set.max_runners
    → Distinct s.scale_set.labels
    → Settings.Validate.validate p s ≡ []
    → validate k (apply_defaults urls (controller_config s env)) ≡ []
unfolding validate apply_defaults controller_config default_scale_sets validate_scale_sets
    validate_loop
controller_config-accepted p k urls s env a n f d h =
    let v = validate-IsValid p s h in
    let (t, u) = trimmed p k urls env s.github.config_url a v.url_lem in
    let repository = names_repository (k.parse_github_url (trim_slash s.github.config_url)) in
    nil-append _ _ (proxmox-fine p k urls s env env.tls env.tls.mode a v n) (
      nil-append _ _
        (rw t (app-fine k s.github.app s.github.config_url _ a.key_lem v.installation_lem u refl))
        (nil-append _ _ (worker-fine p s (codes "worker") v) (
          nil-append _ _
            (set-fine p k urls s env repository a v d (repository-fine p k urls s env a v t))
            (rw (with_tls-range env.tls env.tls.mode (controller_proxmox s env))
              (room-fine p k s repository v f)))))
