-- ===== src/Config/Range.antt =====
-- internal/config/config.go: the VMID range, and the part of it that workers take.
use proxmox_actions_runners.Prelude.{
  ℤ, pos, ◌+ℤ◌, ◌-ℤ◌, ◌≤ℤ◌, ltb_ℤ, leb_ℤ, ◌≡◌, Bool, true, ◌&&◌, ◌↔◌, if◌then◌else◌, arith,
}
use proxmox_actions_runners.Prelude.Int.{+ℤ_parts, -ℤ_parts}
use proxmox_actions_runners.Config.{VmidRange}

-- How many IDs at the end of the range are kept for templates and the installer's clones.
abbrev pub reserved_vmids : ℤ
reserved_vmids = pos 4

unfoldable pub size : VmidRange → ℤ
size r = if ltb_ℤ r.end r.start then pos 0 else r.end -ℤ r.start +ℤ pos 1

unfoldable pub contains : VmidRange → ℤ → Bool
contains r id = leb_ℤ r.start id && leb_ℤ id r.end

unfoldable pub workers : VmidRange → VmidRange
workers r = record { start = r.start; end = r.end -ℤ reserved_vmids }

-- An ID is in the workers' part exactly when it is in the range and not one of its last four.
pub workers_iff :
    (r : VmidRange) (id : ℤ)
    → (contains (workers r) id ≡ true) ↔ ((contains r id ≡ true) × (id +ℤ reserved_vmids ≤ℤ r.end))
unfolding contains workers
workers_iff r id = ground (arith, -ℤ_parts r.end reserved_vmids, +ℤ_parts id reserved_vmids)
