-- ===== src/Settings/Render/Fields.antt =====
-- internal/settings/render.go: each field of the rendered configuration, as the controller checks it.
use proxmox_actions_runners.Prelude.{
  ℕ, suc, ℤ, pos, negsuc, ◌+ℤ◌, ◌≤ℤ◌, ltb_ℤ, max_ℤ, ◌≡◌, ◌≢◌, ◌⊎◌, refl, inl, inr, Bool, true,
  false, not, ◌&&◌, ◌||◌, List, [], ◌∷◌, ◌++◌, Text, Option, some, none, is_empty, is_some, codes,
  arith, lookup, insert, beq_ℤ, text_beq, text_eq, int_eq, text_beq_iff, ◌==◌,
}
use proxmox_actions_runners.Prelude.Int.{
  Fits64, wrap64, wrap64-id, eq_of_parts, +ℤ_parts, beq_ℤ_iff,
}
use proxmox_actions_runners.Prelude.Maps.{lookup-insert}
use proxmox_actions_runners.Prelude.Lists.{All}
use proxmox_actions_runners.Prelude.Strings.{to_lower}
use proxmox_actions_runners.Config
use proxmox_actions_runners.Config.{Config, VmidRange}
use proxmox_actions_runners.Config.InstallDefaults
use proxmox_actions_runners.Config.Range.{size, reserved_vmids}
use proxmox_actions_runners.Config.Defaults.{
  Url, UrlPackage, complete, trim_slash, or_base, or_linked, default_zone, or_text, with_defaults,
  default_worker, default_runner_group, proxmox_api_path,
}
use proxmox_actions_runners.Config.Validate
use proxmox_actions_runners.Config.Validate.{
  Checks, Problem, problem_if, required, validate_range, url_problems, names_repository,
  validate_proxmox, validate_github, validate_worker, validate_labels, name_problems,
  validate_numbers, validate_scale_set, validate_loop, capacity_problems, start_loop, index_text,
  validate_scale_sets, validate,
}
use proxmox_actions_runners.Settings
use proxmox_actions_runners.Settings.{Settings}
use proxmox_actions_runners.Settings.Validate.{Packages}
use proxmox_actions_runners.Settings.Validate.Sound.{IsValid}
use proxmox_actions_runners.Settings.Render.{
  Env, TlsInfo, TlsMode, node_ca, system_cas, pinned, api_url, with_tls, controller_app,
  controller_proxmox,
}

-- The API's URL, as package net/url splits it.
abbrev pub IsApiUrl : Option Url → Type 0
IsApiUrl none = ⊥
IsApiUrl (some u) =
    (u.scheme ≡ codes "https")
    × (u.host ≢ [])
    × (u.path ≡ proxmox_api_path)
    × (u.raw_query ≡ [])
    × (u.fragment ≡ [])
    × (u.has_user ≡ false)

-- What the two checks assume of the packages that they share: names that a pattern accepts are not
-- empty, the two read scale set names and GitHub URLs alike, and the files' paths are absolute.
pub record Agree (p : Packages) (k : Checks) (urls : UrlPackage) (env : Env) : Type 0 where
  pub id_lem : p.is_id [] ≡ false
  pub group_lem : p.is_runner_group [] ≡ false
  pub empty_name_lem : p.is_scale_set_name [] ≡ false
  pub name_lem : (t : Text) → p.is_scale_set_name t ≡ true → k.is_scale_set_name t ≡ true
  pub slash_lem : (t : Text) → p.is_github_url t ≡ true → trim_slash t ≡ t
  pub github_lem : (t : Text) → p.is_github_url t ≡ true → is_some (k.parse_github_url t) ≡ true
  pub same_lem : (t : Text) → k.parse_github_url t ≡ p.parse_github_url t
  pub nowhere_lem : k.parse_github_url [] ≡ none
  pub token_lem : k.is_abs InstallDefaults.token_secret_file ≡ true
  pub ca_lem : k.is_abs InstallDefaults.ca_cert_file ≡ true
  pub key_lem : k.is_abs InstallDefaults.app_key_file ≡ true
  pub parse_lem : k.parse_url (api_url env) ≡ urls.parse (api_url env)
  pub url_lem : IsApiUrl (urls.parse (api_url env))

-- No two labels differ in case alone.
abbrev pub Distinct : List Text → Type 0
Distinct [] = Unit {0}
Distinct (l ∷ ls) = All (λ k. to_lower k ≢ to_lower l) ls × Distinct ls

pub nil-append {ℓ} : {A : Type ℓ} (xs ys : List A) → xs ≡ [] → ys ≡ [] → xs ++ ys ≡ []
nil-append xs ys e f = rw (e, f) refl

is_empty-false : (t : Text) → t ≢ [] → is_empty t ≡ false
is_empty-false [] h = absurd (h refl)
is_empty-false (c ∷ t) h = refl

pub non_empty : (f : Text → Bool) (t : Text) → f [] ≡ false → f t ≡ true → is_empty t ≡ false
non_empty f [] n y = cc
non_empty f (c ∷ t) n y = refl

complete-same :
    (urls : UrlPackage) (raw : Text) (o : Option Url) → IsApiUrl o → complete urls raw o ≡ raw
unfolding text_beq
complete-same urls raw none h = absurd h
complete-same urls raw (some u) (s, h, p, q, f, n) = rw (s, is_empty-false u.host h, p) refl

api_url-fine : (o : Option Url) → IsApiUrl o → url_problems o ≡ []
unfolding text_beq
api_url-fine none h = absurd h
api_url-fine (some u) (s, h, p, q, f, n) = rw (s, is_empty-false u.host h, p, q, f, n) refl

-- The labels that the loop has seen own nothing that comes later.
abbrev Unowned : List (Text × Text) → List Text → Type 0
Unowned owners ls = All (λ (l : Text). lookup (to_lower l) owners ≡ none) ls

Unowned-insert :
    (owners : List (Text × Text)) (l prefix : Text) (ls : List Text)
    → Unowned owners ls
    → All (λ k. to_lower k ≢ to_lower l) ls
    → Unowned (insert (to_lower l) prefix owners) ls
Unowned-insert owners l prefix [] u d = tt
Unowned-insert owners l prefix (k ∷ ls) (u, us) (d, ds) = (
  ground (
    arith,
    lookup-insert (to_lower l) (to_lower k) prefix owners,
    text_beq_iff (to_lower l) (to_lower k),
  ),
  Unowned-insert owners l prefix ls us ds,
)

labels-fine :
    (prefix : Text) (n : ℕ) (ls : List Text) (owners : List (Text × Text))
    → Unowned owners ls
    → Distinct ls
    → (validate_labels prefix n ls owners).1 ≡ []
unfolding validate_labels
labels-fine prefix n [] owners u d = refl
labels-fine prefix n (l ∷ ls) owners (u, us) (d, ds) = rw u (
    labels-fine prefix (suc n) ls (insert (to_lower l) prefix owners)
      (Unowned-insert owners l prefix ls us d) ds)

at_least-fine : (field : Text) (v lo : ℤ) → lo ≤ℤ v → Validate.at_least field v lo ≡ []
at_least-fine field v lo h = ground arith

problem_if-fine :
    (b : Bool) (field : Text) (w : Validate.What) → b ≡ false → problem_if b field w ≡ []
problem_if-fine true field w h = cc
problem_if-fine false field w h = refl

range-fine : (r : VmidRange) → pos 100 ≤ℤ r.start → r.start ≤ℤ r.end → validate_range r ≡ []
unfolding validate_range
range-fine r h k =
    nil-append _ _ (at_least-fine _ r.start (pos 100) h)
      (problem_if-fine (ltb_ℤ r.end r.start) _ _ (ground arith))

-- The Proxmox part of `apply_defaults`.
abbrev completed : UrlPackage → Config.Proxmox → Config.Proxmox
completed urls p = record p {
  url = complete urls p.url (urls.parse p.url);
  zone = or_text p.zone default_zone;
  linked_clone = or_linked p.linked_clone;
}

pub proxmox-fine :
    (p : Packages) (k : Checks) (urls : UrlPackage) (s : Settings) (env : Env) (tls : TlsInfo)
    (mode : TlsMode)
    → Agree p k urls env
    → IsValid p s
    → env.node ≢ []
    → validate_proxmox k (completed urls (with_tls tls mode (controller_proxmox s env))) ≡ []
unfolding validate_proxmox
proxmox-fine p k urls s env tls node_ca a v n =
    rw
      (
        complete-same urls (api_url env) (urls.parse (api_url env)) a.url_lem,
        a.parse_lem,
        api_url-fine (urls.parse (api_url env)) a.url_lem,
        a.token_lem,
        a.ca_lem,
        is_empty-false env.node n,
        non_empty p.is_id s.proxmox.storage a.id_lem v.storage_lem,
        range-fine s.proxmox.vmid_range v.start_lem v.order_lem,
      )
      refl
proxmox-fine p k urls s env tls system_cas a v n =
    rw
      (
        complete-same urls (api_url env) (urls.parse (api_url env)) a.url_lem,
        a.parse_lem,
        api_url-fine (urls.parse (api_url env)) a.url_lem,
        a.token_lem,
        is_empty-false env.node n,
        non_empty p.is_id s.proxmox.storage a.id_lem v.storage_lem,
        range-fine s.proxmox.vmid_range v.start_lem v.order_lem,
      )
      refl
proxmox-fine p k urls s env tls pinned a v n =
    rw
      (
        complete-same urls (api_url env) (urls.parse (api_url env)) a.url_lem,
        a.parse_lem,
        api_url-fine (urls.parse (api_url env)) a.url_lem,
        a.token_lem,
        is_empty-false env.node n,
        non_empty p.is_id s.proxmox.storage a.id_lem v.storage_lem,
        range-fine s.proxmox.vmid_range v.start_lem v.order_lem,
      )
      refl

url-fine :
    (k : Checks) (t : Text)
    → (t ≡ []) ⊎ (is_some (k.parse_github_url t) ≡ true)
    → (not (is_empty t) && not (is_some (k.parse_github_url t))) ≡ false
url-fine k t (inl x) = rw x refl
url-fine k t (inr x) = rw x (ground arith)

pub app-fine :
    (k : Checks) (a : Settings.App) (url : Text) (empty : Bool)
    → k.is_abs InstallDefaults.app_key_file ≡ true
    → pos 0 ≤ℤ a.installation_id
    → (url ≡ []) ⊎ (is_some (k.parse_github_url url) ≡ true)
    → is_empty a.client_id ≡ empty
    → validate_github k (record { config_url = url; app = controller_app a }) ≡ []
unfolding validate_github
app-fine k a url true abs h u e =
    rw e (nil-append _ _ (problem_if-fine _ _ _ (url-fine k url u)) refl)
app-fine k a url false abs h u e =
    rw (e, abs)
      (nil-append _ _ (problem_if-fine _ _ _ (url-fine k url u)) (
        nil-append _ _ (problem_if-fine (ltb_ℤ a.installation_id (pos 0)) _ _ (ground arith)) refl))

or_base-least : (n d lo : ℤ) → (n ≡ pos 0) ⊎ (lo ≤ℤ n) → lo ≤ℤ d → lo ≤ℤ or_base n d
or_base-least n d lo h k = ground (arith, beq_ℤ_iff n (pos 0))

disk-least : (n : ℤ) → pos 0 ≤ℤ n → pos 1 ≤ℤ or_base n default_worker.free_disk_gib
disk-least n h = ground (arith, beq_ℤ_iff n (pos 0))

pub worker-fine :
    (p : Packages) (s : Settings) (prefix : Text)
    → IsValid p s
    → validate_worker (with_defaults s.worker default_worker) prefix ≡ []
unfolding validate_worker with_defaults
worker-fine p s prefix v =
    nil-append _ _
      (at_least-fine _ _ (pos 1)
        (or_base-least s.worker.cores (pos 2) (pos 1) v.cores_lem (omega arith)))
      (nil-append _ _
        (at_least-fine _ _ (pos 1024)
          (or_base-least s.worker.memory_mib _ (pos 1024) v.memory_lem (omega arith)))
        (at_least-fine _ _ (pos 1) (disk-least s.worker.free_disk_gib v.disk_lem)))

pub numbers-fine :
    (x : Config.ScaleSet) (prefix : Text)
    → pos 0 ≤ℤ x.min_runners
    → pos 1 ≤ℤ x.max_runners
    → x.min_runners ≤ℤ x.max_runners
    → Validate.min_max_lifetime ≤ℤ x.max_lifetime
    → x.max_lifetime ≤ℤ Validate.max_max_lifetime
    → ((q : Text) → validate_worker x.worker q ≡ [])
    → validate_numbers prefix x ≡ []
unfolding validate_numbers
numbers-fine x prefix low one order lo hi w =
    nil-append _ _ (problem_if-fine (ltb_ℤ x.min_runners (pos 0)) _ _ (ground arith)) (
      nil-append _ _ (problem_if-fine (ltb_ℤ x.max_runners (pos 1)) _ _ (ground arith)) (
        nil-append _ _ (problem_if-fine (ltb_ℤ x.max_runners x.min_runners) _ _ (ground arith)) (
          nil-append _ _
            (problem_if-fine
              (ltb_ℤ x.max_lifetime Validate.min_max_lifetime
                || ltb_ℤ Validate.max_max_lifetime x.max_lifetime)
              _ _ (ground arith))
            (w (prefix ++ codes ".worker")))))

none-owned : (ls : List Text) → Unowned [] ls
unfolding lookup
none-owned [] = tt
none-owned (l ∷ ls) = (refl, none-owned ls)

group-right :
    (repository : Bool) (group : Text)
    → (repository ≡ false) ⊎ (group ≡ default_runner_group)
    → (repository && not (group == default_runner_group)) ≡ false
group-right repository group (inl e) = rw e refl
group-right repository group (inr e) = ground (arith, text_beq_iff group default_runner_group)

-- One scale set, the first of the loop.
pub scale_set-fine :
    (k : Checks) (repository : Bool) (x : Config.ScaleSet)
    → is_empty x.name ≡ false
    → k.is_scale_set_name x.name ≡ true
    → Distinct x.labels
    → (repository ≡ false) ⊎ (x.runner_group ≡ default_runner_group)
    → ((prefix : Text) → validate_numbers prefix x ≡ [])
    → (validate_scale_set k repository start_loop x).problems ≡ []
unfolding validate_scale_set lookup
scale_set-fine k repository x e n d g num =
    rw (e, n)
      (nil-append _ _ (labels-fine _ 0 x.labels [] (none-owned x.labels) d) (
        nil-append _ _
          (problem_if-fine (repository && not (x.runner_group == default_runner_group)) _ _
            (group-right repository x.runner_group g))
          (num _)))

sum-same : (z : ℤ) → pos 1 ≤ℤ z → Fits64 z → wrap64 (pos 0 +ℤ max_ℤ z (pos 0)) ≡ z
sum-same (pos n) h f =
    let e : pos 0 +ℤ max_ℤ (pos n) (pos 0) ≡ pos n =
      eq_of_parts _ _ (ground (arith, +ℤ_parts (pos 0) (max_ℤ (pos n) (pos 0)))) in
    rw e (wrap64-id (pos n) f)
sum-same (negsuc n) h f = absurd (omega arith)

pub validate_scale_set-total :
    (k : Checks) (repository : Bool) (x : Config.ScaleSet)
    → pos 1 ≤ℤ x.max_runners
    → Fits64 x.max_runners
    → (validate_scale_set k repository start_loop x).total ≡ x.max_runners
unfolding validate_scale_set
validate_scale_set-total k repository x one f = sum-same x.max_runners one f

pub capacity-fine :
    (r : VmidRange) (total : ℤ)
    → wrap64 (total +ℤ reserved_vmids) ≤ℤ size r
    → capacity_problems r total ≡ []
unfolding capacity_problems
capacity-fine r total h = problem_if-fine _ _ _ (ground arith)

pub with_defaults-zero :
    (base : Config.Worker)
    → with_defaults (record { cores = pos 0; memory_mib = pos 0; free_disk_gib = pos 0 }) base
      ≡ base
unfolding with_defaults beq_ℤ
with_defaults-zero base = refl
