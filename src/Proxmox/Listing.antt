-- ===== src/Proxmox/Listing.antt =====
-- internal/proxmox/vm.go: the VMs of a node, from a listing of the cluster's resources.
use mathlib.Core.List.{Memᴰ}
use proxmox_actions_runners.Prelude.{
  ℤ, ◌≡◌, refl, Bool, ◌&&◌, ◌==◌, text_eq, text_beq_iff, List, [], ◌∷◌, Text, codes, if◌then◌else◌,
  Bool-cases, inl, inr, arith,
}
use proxmox_actions_runners.Prelude.Lists.{sort_by, Sorted, sort_by-Sorted, Memᴰ-sort_by}
use proxmox_actions_runners.Proxmox.{Vm}
use proxmox_actions_runners.Proxmox.Tags.{parse_tags}

-- One entry of /cluster/resources.
pub record Resource : Type 0 where
  pub kind : Text
  pub vmid : ℤ
  pub name : Text
  pub node : Text
  pub pool : Text
  pub tags : Text
  pub template : Bool
  pub status : Text
  pub max_disk : ℤ
  pub max_mem : ℤ

abbrev pub to_vm : Resource → Vm
to_vm r = record {
  vmid = r.vmid;
  name = r.name;
  pool = r.pool;
  tags = parse_tags r.tags;
  template = r.template;
  status = r.status;
  max_disk_bytes = r.max_disk;
  max_mem_bytes = r.max_mem;
}

abbrev pub on_node : Resource → Text → Bool
on_node r node = r.kind == codes "qemu" && r.node == node

-- The loop of `vmsOnNode`.
unfoldable pub collect : List Resource → Text → List Vm
collect [] node = []
collect (r ∷ rs) node =
    let rest = collect rs node in if on_node r node then to_vm r ∷ rest else rest

unfoldable pub vms_on_node : List Resource → Text → List Vm
unfolding collect
vms_on_node resources node = sort_by (λ (v : Vm). v.vmid) (collect resources node)

collect-origin :
    {vm : Vm} (rs : List Resource) (node : Text)
    → Memᴰ vm (collect rs node)
    → (r : Resource) × Memᴰ r rs × (r.kind ≡ codes "qemu") × (r.node ≡ node) × (vm ≡ to_vm r)
unfolding collect
collect-origin [] node m = elim m [ ]
collect-origin {vm} (r ∷ rs) node m = elim (Bool-cases (on_node r node)) [
  | inl e ↦
      taken (rw e at m) (collect-origin rs node)
        (ground (arith, text_beq_iff r.kind (codes "qemu")))
        (ground (arith, text_beq_iff r.node node))
  | inr e ↦ later (collect-origin rs node (rw e at m))
]
  where
    Origin : List Resource → Type 0
    Origin xs =
        (r : Resource) × Memᴰ r xs × (r.kind ≡ codes "qemu") × (r.node ≡ node) × (vm ≡ to_vm r)

    later : Origin rs → Origin (r ∷ rs)
    later (x, mx, k, n, v) = (x, Memᴰ.tail mx, k, n, v)

    taken :
        Memᴰ vm (to_vm r ∷ collect rs node)
        → (Memᴰ vm (collect rs node) → Origin rs)
        → r.kind ≡ codes "qemu"
        → r.node ≡ node
        → Origin (r ∷ rs)
    taken (Memᴰ.head e) f k n = (r, Memᴰ.head refl, k, n, e)
    taken (Memᴰ.tail m') f k n = later (f m')

-- The listing of a node is sorted by VMID, and each VM in it comes from a QEMU resource of that
-- node with its tags split.
pub vms_on_node_sound :
    (rs : List Resource) (node : Text) (vm : Vm)
    → Memᴰ vm (vms_on_node rs node)
    → Sorted (λ (v : Vm). v.vmid) (vms_on_node rs node)
      × ((r : Resource) × Memᴰ r rs × (r.kind ≡ codes "qemu") × (r.node ≡ node) × (vm ≡ to_vm r))
unfolding vms_on_node
vms_on_node_sound rs node vm m = (
  sort_by-Sorted _ (collect rs node),
  collect-origin rs node (Memᴰ-sort_by _ (collect rs node) m),
)
