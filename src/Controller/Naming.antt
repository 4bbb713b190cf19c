-- ===== src/Controller/Naming.antt =====
-- internal/controller/naming.go: a worker's name and tags, and what its tags say of it.
pub mod RoundTrip
pub mod Names
use proxmox_actions_runners.Prelude.{
  ℤ, ◌==◌, text_eq, Bool, true, false, ◌||◌, List, [], ◌∷◌, ◌++◌, Text, Option, none, some, codes,
  is_empty, has_prefix, trim_prefix, if◌then◌else◌, beq_ℤ,
}
use proxmox_actions_runners.Prelude.Number.{format_int, itoa, parse_int}
use proxmox_actions_runners.Prelude.Results.{Result, ok, err, ◌>>=◌}
use proxmox_actions_runners.Prelude.Time.{Time, unix, unix_time, is_zero, zero_time}
use proxmox_actions_runners.Proxmox.{Vm, has_tag}
use proxmox_actions_runners.VmTags

abbrev pub jit_config_path : Text
jit_config_path = codes "/run/par-runner/jitconfig"

abbrev pub jit_ready_path : Text
jit_ready_path = codes "/run/par-runner/ready"

-- The VM and runner name of a worker.
unfoldable pub worker_name : ℤ → Time → Text
worker_name vmid created = codes "par-" ++ itoa vmid ++ b'-' ∷ format_int 36 (unix created)

unfoldable pub worker_tags : Text → Time → ℤ → Bool → List Text
worker_tags scale_set created template_vmid ready =
    VmTags.managed
    ∷ VmTags.worker
    ∷ (VmTags.scale_set_prefix ++ scale_set)
    ∷ (VmTags.created_prefix ++ itoa (unix created))
    ∷ (VmTags.template_ref_prefix ++ itoa template_vmid)
    ∷ (if ready then VmTags.ready ∷ [] else [])

-- What the tags of a worker VM say about it.
pub record Worker : Type 0 where
  pub vm : Vm
  pub name : Text
  pub scale_set : Text
  pub created : Time
  pub ready : Bool

pub data TagError : Type 0 where
  invalid_creation : ℤ → Text → TagError
  missing : ℤ → TagError

abbrev pub read_created : ℤ → Text → Option ℤ → Result TagError Time
read_created vmid tag none = err (invalid_creation vmid tag)
read_created vmid tag (some sec) = ok (unix_time sec)

-- One round of the loop over the tags, on the worker read so far.
unfoldable pub read_tag : Worker → Text → Result TagError Worker
read_tag w tag =
    if has_prefix tag VmTags.scale_set_prefix
    then ok (record w { scale_set = trim_prefix tag VmTags.scale_set_prefix })
    else if has_prefix tag VmTags.created_prefix
    then (read_created w.vm.vmid tag (parse_int (trim_prefix tag VmTags.created_prefix)) >>= λ t.
        ok (record w { created = t }))
    else ok w

unfoldable pub read_tags : Worker → List Text → Result TagError Worker
unfolding read_tag
read_tags w [] = ok w
read_tags w (tag ∷ tags) = read_tag w tag >>= λ w'. read_tags w' tags

abbrev pub finish : Worker → Result TagError Worker
finish w =
    if is_empty w.scale_set || is_zero w.created
    then err (missing w.vm.vmid)
    else ok (record w { name = worker_name w.vm.vmid w.created })

unfoldable pub parse_worker : Vm → Result TagError Worker
unfolding read_tags
parse_worker vm =
    read_tags
      (record {
        vm = vm;
        name = [];
        scale_set = [];
        created = zero_time;
        ready = has_tag vm VmTags.ready;
      })
      vm.tags
    >>= finish
