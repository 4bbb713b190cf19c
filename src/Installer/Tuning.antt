-- ===== src/Installer/Tuning.antt =====
-- internal/installer/offloads.go and asyncpf.go: where the tuning of a node stands that is itself a VM,
-- without the fields that only the tuning itself reads. What the node's files, NICs and commands answer
-- is a parameter.
use proxmox_actions_runners.Prelude.{
  nat_beq, ◌==◌, text_eq, Bool, true, false, not, ◌||◌, ◌&&◌, List, [], ◌∷◌, ◌++◌, Text, Option,
  none, some, codes, contains, is_empty, has_prefix, is_some, if◌then◌else◌,
}
use proxmox_actions_runners.Prelude.Strings.{is_space}

-- What the node answers: which ports a bridge has, a NIC's driver, where ethtool is, which offloads of a
-- NIC are on, what a file holds, which files exist, and whether the node is a VM on KVM.
pub record Node : Type 0 where
  pub bridge_ports : Text → List Text
  pub driver : Text → Text
  pub ethtool : Option Text
  pub features : Text → Option (List Text)
  pub read_file : Text → Option Text
  pub file_exists : Text → Bool
  pub kvm_guest : Bool

-- internal/hostsys/hostsys.go: the files.
abbrev pub udev_rule : Text
udev_rule = codes "/etc/udev/rules.d/90-par-offloads.rules"

abbrev pub proc_cmdline : Text
proc_cmdline = codes "/proc/cmdline"

abbrev pub grub_defaults : Text
grub_defaults = codes "/etc/default/grub"

abbrev pub grub_drop_in_file : Text
grub_drop_in_file = codes "/etc/default/grub.d/par-no-kvm-apf.cfg"

abbrev pub grub_cfg : Text
grub_cfg = codes "/boot/grub/grub.cfg"

abbrev pub kernel_cmdline : Text
kernel_cmdline = codes "/etc/kernel/cmdline"

abbrev pub boot_uuids : Text
boot_uuids = codes "/etc/kernel/proxmox-boot-uuids"

-- `strings.Join`
unfoldable pub join : Text → List Text → Text
join sep [] = []
join sep (t ∷ []) = t
join sep (t ∷ u ∷ ts) = t ++ (sep ++ join sep (u ∷ ts))

abbrev pub is_none : {A : Type 0} → List A → Bool
is_none [] = true
is_none (x ∷ xs) = false

pub record Offload : Type 0 where
  pub flag : Text
  pub feature : Text

abbrev pub offloads : List Offload
offloads =
    (record { flag = codes "gro"; feature = codes "generic-receive-offload" })
    ∷ (record { flag = codes "gso"; feature = codes "generic-segmentation-offload" })
    ∷ (record { flag = codes "tso"; feature = codes "tcp-segmentation-offload" })
    ∷ (record { flag = codes "tx"; feature = codes "tx-checksumming" })
    ∷ []

unfoldable pub flags_to : Text → List Offload → List Text
flags_to state [] = []
flags_to state (o ∷ os) = o.flag ∷ state ∷ flags_to state os

abbrev pub offload_args : (nic state : Text) → List Text
offload_args nic state = codes "-K" ∷ nic ∷ flags_to state offloads

abbrev pub quote : Text → Text
quote t = 34 ∷ (t ++ 34 ∷ [])

abbrev pub rule_line : (ethtool nic : Text) → Text
rule_line ethtool nic =
    codes "ACTION=="
    ++ (quote (codes "add")
        ++ (codes ", SUBSYSTEM=="
            ++ (quote (codes "net")
                ++ (codes ", NAME=="
                    ++ (quote nic
                        ++ (codes ", RUN+="
                            ++ (quote (
                                  ethtool
                                  ++ (codes " "
                                      ++ join (codes " ") (offload_args nic (codes "off"))))
                                ++ 10 ∷ [])))))))

unfoldable pub rule_lines : Text → List Text → Text
rule_lines ethtool [] = []
rule_lines ethtool (nic ∷ nics) = rule_line ethtool nic ++ rule_lines ethtool nics

-- `offloadRule`
abbrev pub offload_rule : Text → List Text → Text
offload_rule ethtool nics =
    codes "# Written by parcon, and removed by parcon uninstall." ++ 10 ∷ rule_lines ethtool nics

unfoldable pub features_on : List Text → List Offload → List Text
features_on features [] = []
features_on features (o ∷ os) =
    let rest = features_on features os in
    if contains features o.feature then o.feature ∷ rest else rest

pub record OffloadState : Type 0 where
  pub nics : List Text
  pub no_ethtool : Bool
  pub pending : List Text

-- Whether a file holds a text.
abbrev pub holds : Option Text → Text → Bool
holds none text = false
holds (some have) text = have == text

-- `strings.Contains`
unfoldable pub has_part : Text → Text → Bool
has_part [] part = is_empty part
has_part (c ∷ s) part = has_prefix (c ∷ s) part || has_part s part

-- `strings.Cut` at the first newline.
unfoldable pub first_line : Text → Text
first_line [] = []
first_line (c ∷ s) = if nat_beq c 10 then [] else c ∷ first_line s

abbrev pub word : Text → List Text
word [] = []
word (c ∷ s) = (c ∷ s) ∷ []

-- The word that a text begins with, and the words after it.
unfoldable pub words : Text → Text × List Text
words [] = ([], [])
words (c ∷ s) =
    let (begun, rest) = words s in
    if is_space c then ([], word begun ++ rest) else (c ∷ begun, rest)

-- `strings.Fields` on ASCII.
abbrev pub fields : Text → List Text
fields s = let (begun, rest) = words s in word begun ++ rest

abbrev pub no_kvm_apf : Text
no_kvm_apf = codes "no-kvm-apf"

-- `hasNoKVMAPF`
unfoldable pub has_no_kvm_apf : Text → Bool
has_no_kvm_apf cmdline = contains (fields (first_line cmdline)) no_kvm_apf

abbrev pub grub_drop_in : Text
grub_drop_in =
    codes
      "# Written by parcon, and removed by parcon uninstall: on a node that is itself a VM, KVM's"
    ++ 10
      ∷ (codes "# async page faults can panic it."
          ++ 10
            ∷ (codes "GRUB_CMDLINE_LINUX="
                ++ (quote (codes "$GRUB_CMDLINE_LINUX " ++ no_kvm_apf) ++ 10 ∷ [])))

pub record AsyncPfState : Type 0 where
  pub guest : Bool
  pub booted : Bool
  pub grub : Bool
  pub cmdline : Bool
  pub pending : List Text

-- The result of a check: whether it passed, and the reason.
pub record CheckResult : Type 0 where
  pub passed : Bool
  pub reason : Text

abbrev pub passes : Text → CheckResult
passes reason = record { passed = true; reason = reason }

abbrev pub fails : Text → CheckResult
fails reason = record { passed = false; reason = reason }

pub data Mode : Type 0 where
  to_install to_check installed : Mode

abbrev pub is_install : Mode → Bool
is_install to_install = true
is_install _ = false

module _ (n : Node) where
  -- `virtioPorts`
  unfoldable pub virtio_ports : List Text → List Text
  virtio_ports [] = []
  virtio_ports (p ∷ ps) =
      let rest = virtio_ports ps in if n.driver p == codes "virtio_net" then p ∷ rest else rest

  abbrev pub nic_pending : Text → List Text → List Text
  nic_pending nic [] = []
  nic_pending nic (f ∷ fs) =
      (nic ++ (codes ": " ++ (join (codes " ") (f ∷ fs) ++ codes " on"))) ∷ []

  unfoldable pub nics_pending : List Text → List Text
  nics_pending [] = []
  nics_pending (nic ∷ nics) =
      let rest = nics_pending nics in
      elim (n.features nic) [
        | none ↦ (nic ++ codes ": can't read its offloads") ∷ rest
        | some features ↦ nic_pending nic (features_on features offloads) ++ rest
      ]

  abbrev pub rule_pending : Text → List Text → List Text
  rule_pending ethtool nics =
      if not (holds (n.read_file udev_rule) (offload_rule ethtool nics))
      then (codes "udev rule " ++ udev_rule) ∷ []
      else []

  abbrev pub offload_state : List Text → OffloadState
  offload_state nics = elim n.ethtool [
    | none ↦ record { nics = nics; no_ethtool = true; pending = [] }
    | some ethtool ↦ record {
      nics = nics;
      no_ethtool = false;
      pending = rule_pending ethtool nics ++ nics_pending nics;
    }
  ]

  -- `Offloads`
  unfoldable pub offloads_of : Text → OffloadState
  offloads_of bridge =
      let nics = virtio_ports (n.bridge_ports bridge) in
      if is_none nics
      then record { nics = []; no_ethtool = false; pending = [] }
      else offload_state nics

  -- `checkOffloads`
  unfoldable pub check_offloads : Text → Mode → CheckResult
  check_offloads bridge mode =
      let st = offloads_of bridge in
      if is_none st.nics
      then passes (codes "not needed: no virtio NIC on " ++ bridge)
      else if st.no_ethtool
      then fails (codes "ethtool isn't installed, so they can't be turned off")
      else if is_none st.pending
      then passes (codes "off on " ++ join (codes " ") st.nics)
      else if not (is_install mode)
      then fails (
          codes "the node is a VM, and they aren't off for good ("
          ++ (join (codes "; ") st.pending
              ++ codes "); parcon install and parcon update turn them off"))
      else passes
          (codes "the node is a VM: they will be turned off on " ++ join (codes " ") st.nics)

  -- The kernel command line in a file.
  abbrev pub has_apf_file : Option Text → Bool
  has_apf_file none = has_no_kvm_apf []
  has_apf_file (some text) = has_no_kvm_apf text

  abbrev pub mentions : Option Text → Bool
  mentions none = has_part [] no_kvm_apf
  mentions (some cfg) = has_part cfg no_kvm_apf

  abbrev pub grub_pending : List Text
  grub_pending =
      if not (n.file_exists grub_defaults)
      then []
      else if not (holds (n.read_file grub_drop_in_file) grub_drop_in)
          || not (mentions (n.read_file grub_cfg))
      then (grub_drop_in_file ++ codes " and update-grub") ∷ []
      else []

  abbrev pub cmdline_pending : Option Text → List Text
  cmdline_pending none = []
  cmdline_pending (some kc) = if not (has_no_kvm_apf kc) then kernel_cmdline ∷ [] else []

  abbrev pub refresh_pending : List Text → List Text
  refresh_pending pending =
      if not (is_none pending) && n.file_exists boot_uuids
      then codes "proxmox-boot-tool refresh" ∷ []
      else []

  -- `AsyncPF`
  unfoldable pub async_pf : AsyncPfState
  async_pf =
      let kc = n.read_file kernel_cmdline in
      let pending = grub_pending ++ cmdline_pending kc in
      if not n.kvm_guest
      then record { guest = false; booted = false; grub = false; cmdline = false; pending = [] }
      else record {
        guest = true;
        booted = has_apf_file (n.read_file proc_cmdline);
        grub = n.file_exists grub_defaults;
        cmdline = is_some kc;
        pending = pending ++ refresh_pending pending;
      }

  -- `checkAsyncPF`
  unfoldable pub check_async_pf : Mode → CheckResult
  check_async_pf mode =
      let st = async_pf in
      if not st.guest
      then passes (codes "not needed: the node isn't a VM on KVM")
      else if not st.grub && not st.cmdline
      then fails (
          codes "the node is a VM on KVM, and they can panic it, but it has neither GRUB nor "
          ++ (kernel_cmdline ++ (codes " to turn them off with; boot it with " ++ no_kvm_apf)))
      else if is_none st.pending && st.booted
      then passes (codes "off: the node booted with " ++ no_kvm_apf)
      else if is_none st.pending
      then fails (
          no_kvm_apf
          ++ codes " is set, and turns them off once the node reboots; reboot it when no job runs")
      else if is_install mode
      then passes (
          codes "the node is a VM on KVM: "
          ++ (no_kvm_apf ++ codes " will turn them off from its next boot"))
      else fails (
          codes "the node is a VM on KVM, and they can panic it ("
          ++ (join (codes ", ") st.pending
              ++ codes " left to set); parcon install and parcon update turn them off"))
