-- ===== src/Examples/Passes.antt =====
-- Passes of the controller at concrete inputs.
use mathlib.Core.List.{Memᴰ}
use proxmox_actions_runners.Prelude.{
  ℤ, negsuc, pos, ◌+◌, ◌≤◌, ◌≤ℤ◌, ◌<ℤ◌, ◌≡◌, ◌≢◌, int_eq, ◌⊎◌, inl, refl, true, false, [], ◌∷◌,
  none, some, codes, arith, text_beq, insert, lookup,
}
use proxmox_actions_runners.Prelude.Int.{◌-ℤ◌, ◌+ℤ◌}
use proxmox_actions_runners.Prelude.Lists.{All}
use proxmox_actions_runners.Prelude.Time.{seconds, hours, sub}
use proxmox_actions_runners.Config.Range.{contains, workers}
use proxmox_actions_runners.Prelude.{cut_prefix, beq_ℤ}
use proxmox_actions_runners.Prelude.Number.{parse_int, parse_nat, parse_digits}
use proxmox_actions_runners.Prelude.Maps
use proxmox_actions_runners.Proxmox.{Vm, has_tag}
use proxmox_actions_runners.VmTags
use proxmox_actions_runners.VmTags.Newest.{newest_template-newest, newest_template-none}
use proxmox_actions_runners.Controller.Naming.{Worker}
use proxmox_actions_runners.Controller.Observe.{View}
use proxmox_actions_runners.Controller.State.{
  is_busy, start_op, any_creation, prune_template, Reason, creating_any,
}
use proxmox_actions_runners.Controller.Prune.{prune_templates, prune_loop, in_use}
use proxmox_actions_runners.Controller.Prune.Safe.{Dependent, prune_templates-unused}
use proxmox_actions_runners.Controller.RetireReason.{retire_reason}
use proxmox_actions_runners.Controller.Scale.{Pass, is_taken, allocate_vmid, first_free, scale}
use proxmox_actions_runners.Controller.Scale.Allocate.{
  allocate_vmid-some, allocate_vmid-lowest, allocate_vmid-none,
}
use proxmox_actions_runners.Controller.Scale.Bounds.{
  is_create, is_retire, started_of, shortage, excess, scale-count, scale-unknown,
}
use proxmox_actions_runners.Controller.Reconcile.{converge}
use proxmox_actions_runners.Controller.Safety.{Allowed}
use proxmox_actions_runners.Controller.Safety.Verdicts.{
  Justified, retire_reason-Justified, retire_reason-frame,
}
use proxmox_actions_runners.Controller.Safety.Passes.{converge-Allowed}
use proxmox_actions_runners.Examples.Fleet.{
  cfg, listing, fleet, env, linux, idle, worker_vm, template_vm, old_template_vm, vmids,
}

converge-Allowed_example : All (Allowed cfg listing) (converge env (hours 1) listing fleet).started
converge-Allowed_example = converge-Allowed env (hours 1) listing fleet refl

-- The worker is a day old.
too_old : (retire_reason env (some linux) idle (hours 25) 0 fleet).reason ≡ some Reason.older
unfolding retire_reason sub ◌-ℤ◌
too_old = refl

retire_reason-Justified_example :
    Justified env
      (some linux)
      idle
      (hours 25)
      0
      Reason.older
      (retire_reason env (some linux) idle (hours 25) 0 fleet).force
retire_reason-Justified_example =
    retire_reason-Justified env (some linux) idle (hours 25) 0 fleet Reason.older too_old

only_lookup_changed :
    let c' = (retire_reason env (some linux) idle (hours 25) 0 fleet).after in
    c' ≡ record fleet { last_runner_check = c'.last_runner_check }
only_lookup_changed = retire_reason-frame env (some linux) idle (hours 25) 0 fleet

abbrev view : View
view = record {
  template = some template_vm;
  workers = (codes "linux", idle ∷ []) ∷ [];
  strays = [];
  used = (pos 100, true) ∷ [];
}

abbrev pass : Pass
pass = record { used = view.used; ctrl = fleet }

scale-count_example :
    let q = scale linux view (hours 1) pass in
    (started_of is_create q.ctrl ≤ started_of is_create fleet + shortage linux view fleet)
    × (started_of is_retire q.ctrl ≤ started_of is_retire fleet + excess linux view fleet)
scale-count_example = scale-count linux view (hours 1) pass

unknown_left_alone : scale (record linux { known = false }) view (hours 1) pass ≡ pass
unknown_left_alone = scale-unknown (record linux { known = false }) view (hours 1) pass (inl refl)

abbrev young : Worker
young = record idle {
  vm = record worker_vm { vmid = pos 101 };
  name = codes "b";
  created = seconds 99;
}

abbrev next_pass : Pass
next_pass = record pass { used = (pos 101, true) ∷ (pos 100, true) ∷ [] }

handed_out :
    allocate_vmid pass ≡ some (pos 101, record pass { used = insert (pos 101) true pass.used })
unfolding allocate_vmid first_free lookup workers ◌-ℤ◌ ◌+ℤ◌ is_busy beq_ℤ
handed_out = refl

allocate_vmid-some_example :
    (contains (workers vmids) (pos 101) ≡ true)
    × (is_taken (pos 101) pass ≡ false)
    × (record pass { used = insert (pos 101) true pass.used }
        ≡ record pass { used = insert (pos 101) true pass.used })
allocate_vmid-some_example =
    allocate_vmid-some pass (pos 101) (record pass { used = insert (pos 101) true pass.used })
      handed_out

in_part : contains (workers vmids) (pos 100) ≡ true
unfolding contains workers ◌-ℤ◌
in_part = refl

allocate_vmid-lowest_example : is_taken (pos 100) pass ≡ true
allocate_vmid-lowest_example =
    allocate_vmid-lowest pass (pos 101) (pos 100)
      (record pass { used = insert (pos 101) true pass.used }) handed_out in_part (omega arith)

-- One worker's VMID, and it is in use.
abbrev full : Pass
full = record pass {
  ctrl = record fleet {
    cfg = record cfg {
      proxmox = record cfg.proxmox { vmid_range = record { start = pos 100; end = pos 104 } };
    };
  };
}

nothing_left : allocate_vmid full ≡ none
unfolding allocate_vmid first_free lookup workers ◌-ℤ◌ ◌+ℤ◌ is_busy beq_ℤ
nothing_left = refl

only_one : contains (workers (record { start = pos 100; end = pos 104 })) (pos 100) ≡ true
unfolding contains workers ◌-ℤ◌
only_one = refl

range_exhausted : is_taken (pos 100) full ≡ true
range_exhausted = allocate_vmid-none full (pos 100) nothing_left only_one

chosen : VmTags.newest_template listing (codes "p") ≡ some template_vm
unfolding VmTags.newest_template VmTags.newest_loop VmTags.is_template VmTags.int VmTags.string
    VmTags.first_value has_tag Maps.contains text_beq cut_prefix parse_int parse_nat parse_digits
    beq_ℤ
chosen = refl

old_template : VmTags.is_template old_template_vm (codes "p") ≡ true
unfolding VmTags.is_template has_tag Maps.contains text_beq
old_template = refl

old_version : VmTags.int old_template_vm VmTags.template_version_prefix ≡ some (pos 1)
unfolding VmTags.int VmTags.string VmTags.first_value cut_prefix parse_int parse_nat parse_digits
old_version = refl

newest_template-newest_example :
    (v : ℤ) × Memᴰ template_vm listing
    × (VmTags.is_template template_vm (codes "p") ≡ true)
    × (VmTags.int template_vm VmTags.template_version_prefix ≡ some v)
    × ((pos 1 <ℤ v) ⊎ ((pos 1 ≡ v) × (pos 109 ≤ℤ pos 108)))
newest_template-newest_example =
    newest_template-newest listing (codes "p") template_vm old_template_vm (pos 1) chosen
      (Memᴰ.tail (Memᴰ.tail (Memᴰ.head refl))) old_template old_version

abbrev negative : Vm
negative = record template_vm {
  tags = codes "par-managed" ∷ codes "par-template" ∷ codes "par-tv--3" ∷ [];
}

none_chosen : VmTags.newest_template (negative ∷ []) (codes "p") ≡ none
unfolding VmTags.newest_template VmTags.newest_loop VmTags.is_template VmTags.int VmTags.string
    VmTags.first_value has_tag Maps.contains text_beq cut_prefix parse_int parse_nat parse_digits
    beq_ℤ
none_chosen = refl

is_negative : VmTags.is_template negative (codes "p") ≡ true
unfolding VmTags.is_template has_tag Maps.contains text_beq
is_negative = refl

minus_three : VmTags.int negative VmTags.template_version_prefix ≡ some (negsuc 2)
unfolding VmTags.int VmTags.string VmTags.first_value cut_prefix parse_int parse_nat parse_digits
minus_three = refl

negative_not_chosen : negsuc 2 <ℤ pos 0
negative_not_chosen =
    newest_template-none (negative ∷ []) (codes "p") negative (negsuc 2) none_chosen
      (Memᴰ.head refl) is_negative minus_three

pruned :
    Memᴰ (prune_template old_template_vm) (prune_templates listing (some template_vm) fleet).started
unfolding prune_templates prune_loop in_use start_op is_busy lookup insert creating_any any_creation
    VmTags.is_template VmTags.int VmTags.string VmTags.first_value has_tag Maps.contains text_beq
    cut_prefix parse_int parse_nat parse_digits beq_ℤ
pruned = Memᴰ.head refl

worker-Dependent : Dependent (codes "p") worker_vm
unfolding has_tag Maps.contains text_beq
worker-Dependent = (refl, refl, refl)

prune_templates-unused_example :
    (creating_any fleet ≡ false)
    × ((ref : ℤ) × (VmTags.int worker_vm VmTags.template_ref_prefix ≡ some ref) × (ref ≢ pos 109))
prune_templates-unused_example =
    prune_templates-unused listing template_vm old_template_vm worker_vm fleet refl pruned
      (Memᴰ.head refl) worker-Dependent
