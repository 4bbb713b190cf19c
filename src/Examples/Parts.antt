-- ===== src/Examples/Parts.antt =====
-- Configuration, tags, listings, releases and a scale set's state at concrete inputs.
use mathlib.Core.List.{Memᴰ}
use proxmox_actions_runners.Prelude.{
  none, ℕ, text_beq, pos, ◌+ℤ◌, ◌≤ℤ◌, ◌<ℤ◌, ◌≤◌, ◌^◌, ◌≡◌, ◌≢◌, ◌↔◌, ◌⊎◌, refl, true, false, List,
  [], ◌∷◌, codes, arith,
}
use proxmox_actions_runners.Prelude.Int.{Fits64, +ℤ_parts}
use proxmox_actions_runners.Prelude.Number.{format_int, format_nat, digits, digit_char}
use proxmox_actions_runners.Prelude.Lists.{Sorted, sort_by, insert_sorted}
use proxmox_actions_runners.Prelude.Results.{ok}
use proxmox_actions_runners.Prelude.Time.{seconds, hours, zero_time, unix, truncate_second}
use proxmox_actions_runners.Config.App.{require_github_app, require_github_app_iff}
use proxmox_actions_runners.Config.Range.{contains, workers, workers_iff, reserved_vmids}
use proxmox_actions_runners.Config.Units.{parse_size, format_mib}
use proxmox_actions_runners.Config.Units.RoundTrip.{parse_size-format_mib, parse_size_bounds}
use proxmox_actions_runners.Proxmox.{Vm}
use proxmox_actions_runners.Proxmox.Tags.{parse_tags, format_tags, parse_tags-format_tags}
use proxmox_actions_runners.Proxmox.Listing.{
  Resource, to_vm, collect, vms_on_node, vms_on_node_sound,
}
use proxmox_actions_runners.GitHub.RunnerRelease.{RunnerRelease, staleness, current}
use proxmox_actions_runners.GitHub.RunnerRelease.Order.{rank, staleness_mono}
use proxmox_actions_runners.Controller.ScaleSet.{desired_runners, has_job, target}
use proxmox_actions_runners.Controller.ScaleSet.Jobs.{Event, run, told_all, has_job-run}
use proxmox_actions_runners.Controller.ScaleSet.Target.{
  desired_runners_bounds, desired_runners-wake,
}
use proxmox_actions_runners.Controller.Naming.{worker_tags, parse_worker}
use proxmox_actions_runners.Controller.Naming.Names.{worker_name-injective}
use proxmox_actions_runners.Controller.Naming.RoundTrip.{intended, parse_worker-worker_tags}
use proxmox_actions_runners.Release.{Version, compare_versions}
use proxmox_actions_runners.Release.Order.{opposite, compare_versions-swap}
use proxmox_actions_runners.Examples.Fleet.{cfg, vmids, linux, worker_vm}

reserved_107 :
    (contains (workers vmids) (pos 107) ≡ true)
    ↔ ((contains vmids (pos 107) ≡ true) × (pos 107 +ℤ reserved_vmids ≤ℤ pos 110))
reserved_107 = workers_iff vmids (pos 107)

parse_size-format_mib_example : parse_size (format_mib (pos 1536)) ≡ ok (pos 1536)
parse_size-format_mib_example = parse_size-format_mib 1536 (omega arith)

size_in_range : (pos 0 ≤ℤ pos 1536) × (pos 1536 <ℤ pos (2 ^ 31))
size_in_range = parse_size_bounds (format_mib (pos 1536)) (pos 1536) parse_size-format_mib_example

parse_tags-format_tags_example :
    parse_tags (format_tags (codes "par-managed" ∷ codes "par-ready" ∷ []))
    ≡ codes "par-managed" ∷ codes "par-ready" ∷ []
parse_tags-format_tags_example =
    parse_tags-format_tags (codes "par-managed" ∷ codes "par-ready" ∷ []) (ground arith)

abbrev release : RunnerRelease
release = record { version = codes "2.330.0"; published_at = seconds 100 }

staler_later :
    (rank (staleness release (codes "2.329.0") (hours 100))
      ≤ rank (staleness release (codes "2.329.0") (hours 600)))
    × ((staleness release (codes "2.329.0") (hours 100) ≡ current)
        ↔ (staleness release (codes "2.329.0") (hours 600) ≡ current))
staler_later = staleness_mono release (codes "2.329.0") (hours 100) (hours 600) (omega arith)

six-Fits64 : Fits64 (pos 1 +ℤ pos 5)
six-Fits64 = ground (arith, +ℤ_parts (pos 1) (pos 5))

target_in_bounds :
    let t = (desired_runners (pos 5) linux).1 in
    (pos 1 ≤ℤ t) × (t ≤ℤ pos 3) × (t ≤ℤ pos 1 +ℤ pos 5) × ((t ≡ pos 3) ⊎ (t ≡ pos 1 +ℤ pos 5))
target_in_bounds =
    desired_runners_bounds linux (pos 5) (omega arith) (omega arith) (omega arith) six-Fits64

target_recorded :
    let (s', t, wake) = desired_runners (pos 5) linux in
    (target s' ≡ (t, true)) × ((wake ≡ false) ↔ (target linux ≡ target s'))
target_recorded = desired_runners-wake linux (pos 5)

abbrev events : List Event
events = Event.started (codes "a") ∷ Event.desires (pos 2) ∷ Event.completed (codes "a") ∷ []

has_job-run_example :
    has_job (run events linux) (codes "a") ≡ told_all (codes "a") events (has_job linux (codes "a"))
has_job-run_example = has_job-run (codes "a") events linux

unix-64 : unix (seconds 64) ≡ pos 64
unfolding unix
unix-64 = refl

abbrev hundred : ℕ
hundred = 100

worker_name-injective_example : (hundred ≡ hundred) × (unix (seconds 64) ≡ unix (seconds 64))
worker_name-injective_example =
    worker_name-injective hundred hundred 64 64 (seconds 64) (seconds 64) (unix-64) (unix-64) refl

unix-Fits64 : Fits64 (unix (seconds 64))
unfolding unix
unix-Fits64 = (omega arith, omega arith)

not_zero : truncate_second (seconds 64) ≢ zero_time
unfolding truncate_second
not_zero = λ e. ground arith

as_written :
    worker_vm.tags ≡ worker_tags (codes "linux") (truncate_second (seconds 64)) (pos 108) true
unfolding worker_tags format_int format_nat digits digit_char truncate_second unix
as_written = refl

parse_worker-worker_tags_example :
    parse_worker worker_vm
    ≡ ok (intended worker_vm (codes "linux") (truncate_second (seconds 64)) true)
parse_worker-worker_tags_example =
    parse_worker-worker_tags worker_vm (codes "linux") (seconds 64) (pos 108) true
      (λ e. ground arith) unix-Fits64 not_zero as_written

abbrev resource : Resource
resource = record {
  kind = codes "qemu";
  vmid = pos 100;
  name = codes "a";
  node = codes "n";
  pool = codes "p";
  tags = codes "x;y";
  template = false;
  status = codes "running";
  max_disk = pos 0;
  max_mem = pos 0;
}

found : Memᴰ (to_vm resource) (vms_on_node (resource ∷ []) (codes "n"))
unfolding vms_on_node collect text_beq sort_by insert_sorted
found = Memᴰ.head refl

vms_on_node_sound_example :
    Sorted (λ (v : Vm). v.vmid) (vms_on_node (resource ∷ []) (codes "n"))
    × ((r : Resource) × Memᴰ r (resource ∷ [])
        × (r.kind ≡ codes "qemu")
        × (r.node ≡ codes "n")
        × (to_vm resource ≡ to_vm r))
vms_on_node_sound_example = vms_on_node_sound (resource ∷ []) (codes "n") (to_vm resource) found

abbrev candidate : Version
candidate = record { major = pos 0; minor = pos 2; patch = pos 0; pre = codes "rc.1" }

abbrev released : Version
released = record { major = pos 0; minor = pos 2; patch = pos 0; pre = [] }

versions_swapped :
    compare_versions released candidate ≡ opposite (compare_versions candidate released)
versions_swapped = compare_versions-swap candidate released

app_fields_needed : (require_github_app cfg ≡ none) ↔ (
    (cfg.github.config_url ≢ [])
    × (cfg.github.app.client_id ≢ [])
    × (cfg.github.app.installation_id ≢ pos 0)
    × (cfg.github.app.private_key_file ≢ []))
app_fields_needed = require_github_app_iff cfg
