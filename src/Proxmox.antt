-- ===== src/Proxmox.antt =====
-- internal/proxmox: the VMs that the API lists, with their tags.
pub mod Tags
pub mod Listing
pub mod Errors
pub mod Tasks
pub mod Access
use proxmox_actions_runners.Prelude.{ℤ, pos, Bool, false, List, [], Text, text_eq, contains}

-- One VM of a listing.
pub record Vm : Type 0 where
  pub vmid : ℤ
  pub name : Text
  pub pool : Text
  pub tags : List Text
  pub template : Bool
  pub status : Text
  pub max_disk_bytes : ℤ
  pub max_mem_bytes : ℤ

-- Go's zero value.
abbrev pub zero_vm : Vm
zero_vm = record {
  vmid = pos 0;
  name = [];
  pool = [];
  tags = [];
  template = false;
  status = [];
  max_disk_bytes = pos 0;
  max_mem_bytes = pos 0;
}

unfoldable pub has_tag : Vm → Text → Bool
unfolding contains
has_tag v tag = contains v.tags tag
