-- ===== src/Controller/Worker/Create.antt =====
-- internal/controller/worker.go: building one worker, and cleaning up after a failure.
use proxmox_actions_runners.Prelude.{
  ℕ, ℤ, Bool, true, false, not, List, [], ◌∷◌, ◌++◌, Text, Option, none, some, if◌then◌else◌, codes,
  insert, int_eq,
}
use proxmox_actions_runners.Prelude.Results.{Result, ok, err}
use proxmox_actions_runners.Prelude.Number.{itoa}
use proxmox_actions_runners.Prelude.Time.{Time, add, truncate_second}
use proxmox_actions_runners.Config
use proxmox_actions_runners.Config.{use_linked_clone}
use proxmox_actions_runners.Proxmox.{Vm}
use proxmox_actions_runners.Proxmox.Tags.{format_tags}
use proxmox_actions_runners.Proxmox.Errors.{PveError, canceled, is_vmid_in_use}
use proxmox_actions_runners.Controller.Naming.{
  worker_name, worker_tags, jit_config_path, jit_ready_path,
}
use proxmox_actions_runners.Controller.ScaleSet.{ScaleSetState, back_off}
use proxmox_actions_runners.Controller.Worker.{
  World, St, clone, set_config, grow_disk, start, agent_write_file, generate_jit_config,
  CloneOptions, OpError, clone_taken, clone_failed, configure_failed, grow_failed, register_failed,
  start_failed, agent_failed, deliver_failed, signal_failed, mark_failed, destroy_failed,
  wait_canceled, Outcome, called, retire, wait_for_agent, on_scale_set,
}

-- A worker that is being built: the error so far, and whether its runner is registered.
pub record Built : Type 0 where
  pub error : Option OpError
  pub registered : Bool
  pub after : St

-- What is built: the scale set, the template, the VMID, the creation time and the name.
pub record Plan : Type 0 where
  pub scale_set : ScaleSetState
  pub template : Vm
  pub vmid : ℤ
  pub created : Time

abbrev pub plan_name : Plan → Text
plan_name p = worker_name p.vmid p.created

-- A step that fails ends the building.
unfoldable pub step :
    Option PveError → (PveError → OpError) → Bool → St → (St → Option Built) → Option Built
step none f registered st next = next st
step (some e) f registered st next =
    some (record { error = some (f e); registered = registered; after = st })

unfoldable pub register : Result Bool Text → St → (Text → St → Option Built) → Option Built
register (err ended) st next =
    some (record { error = some (register_failed ended); registered = false; after = st })
register (ok jit) st next = next jit st

unfoldable pub booted : Option Outcome → (St → Option Built) → Option Built
booted none next = none
booted (some (none, st)) next = next st
booted (some (some e, st)) next = some (record { error = some e; registered = true; after = st })

abbrev pub tag_setting : Plan → Bool → Text × Text
tag_setting p ready =
    (codes "tags", format_tags (worker_tags p.scale_set.cfg.name p.created p.template.vmid ready))

abbrev pub settings : Config.Proxmox → Plan → List (Text × Text)
settings pve p =
    tag_setting p false
    ∷ (codes "cores", itoa p.scale_set.cfg.worker.cores)
    ∷ (codes "memory", itoa p.scale_set.cfg.worker.memory_mib)
    ∷ (codes "net0", codes "virtio,bridge=" ++ pve.vnet)
    ∷ (codes "ipconfig0", codes "ip=dhcp")
    ∷ (codes "onboot", codes "0")
    ∷ (codes "agent", codes "1")
    ∷ (codes "ciupgrade", codes "0")
    ∷ []

-- The last steps: the agent answers, the JIT config is delivered, and the worker is tagged ready.
unfoldable pub deliver : ℕ → World → Plan → Text → St → Option Built
deliver fuel w p jit st =
    booted (wait_for_agent fuel w p.vmid (add (w.now st.calls) st.ctrl.boot_timeout) st) λ st1.
      step (w.agent_write_file_answer st1.calls p.vmid jit_config_path) deliver_failed true
        (called (agent_write_file p.vmid jit_config_path jit) st1)
        λ st2.
          step (w.agent_write_file_answer st2.calls p.vmid jit_ready_path) signal_failed true
            (called (agent_write_file p.vmid jit_ready_path []) st2)
            λ st3.
              step (w.set_config_answer st3.calls p.vmid) mark_failed true
                (called (set_config p.vmid (tag_setting p true ∷ [])) st3)
                λ st4. some (record { error = none; registered = true; after = st4 })

-- The steps after the clone.
unfoldable pub build : ℕ → World → Plan → St → Option Built
build fuel w p st =
    step (w.set_config_answer st.calls p.vmid) configure_failed false
      (called (set_config p.vmid (settings st.ctrl.cfg.proxmox p)) st)
      λ st1.
        step (w.grow_disk_answer st1.calls p.vmid) grow_failed false
          (called (grow_disk p.vmid (codes "scsi0") p.scale_set.cfg.worker.free_disk_gib) st1)
          λ st2.
            register (w.jit_config_answer st2.calls (plan_name p))
              (called (generate_jit_config p.scale_set.id (plan_name p)) st2)
              λ jit st3.
                step (w.start_answer st3.calls p.vmid) start_failed true (called (start p.vmid) st3)
                  λ st4. deliver fuel w p jit st4

-- A half-built worker is retired on the spot.
abbrev pub clean_up : World → Plan → Built → Outcome
clean_up w p b = elim b.error [
  | none ↦ (none, b.after)
  | some e ↦
      (some e, (retire w p.vmid true (if b.registered then plan_name p else []) true b.after).1)
]

abbrev pub cleaned : World → Plan → Option Built → Option Outcome
cleaned w p none = none
cleaned w p (some b) = some (clean_up w p b)

abbrev pub clone_options : Config.Proxmox → Plan → CloneOptions
clone_options pve p = record {
  source_vmid = p.template.vmid;
  new_vmid = p.vmid;
  name = plan_name p;
  pool = pve.pool;
  full = not (use_linked_clone pve);
  storage = pve.storage;
  description =
      codes "Runner for scale set "
      ++ p.scale_set.cfg.name
      ++ codes ". Managed by proxmox-actions-runners; destroyed after one job.";
}

-- A VMID that a VM out of sight has is never tried again.
abbrev pub mark_foreign : ℤ → St → St
mark_foreign vmid st = record st {
  ctrl = record st.ctrl { foreign = insert vmid true st.ctrl.foreign };
}

abbrev pub cloned : ℕ → World → Plan → Option PveError → St → Option Outcome
cloned fuel w p none st = cleaned w p (build fuel w p st)
cloned fuel w p (some e) st =
    if is_vmid_in_use e
    then some (some (clone_taken e), mark_foreign p.vmid st)
    else some (some (clone_failed e), st)

-- `create`; `none` means that the fuel of the wait for the agent ran out.
unfoldable pub create : ℕ → World → ScaleSetState → Vm → ℤ → St → Option Outcome
create fuel w s template vmid st =
    let p : Plan = record {
      scale_set = s;
      template = template;
      vmid = vmid;
      created = truncate_second (w.now st.calls);
    } in
    let options = clone_options st.ctrl.cfg.proxmox p in
    cloned fuel w p (w.clone_answer st.calls options) (called (clone options) st)

abbrev pub pve_canceled : PveError → Bool
pve_canceled canceled = true
pve_canceled _ = false

-- Whether an error is the end of the context.
abbrev pub is_canceled : OpError → Bool
is_canceled (register_failed c) = c
is_canceled (clone_taken e) = pve_canceled e
is_canceled (clone_failed e) = pve_canceled e
is_canceled (configure_failed e) = pve_canceled e
is_canceled (grow_failed e) = pve_canceled e
is_canceled (start_failed e) = pve_canceled e
is_canceled (agent_failed e) = pve_canceled e
is_canceled (deliver_failed e) = pve_canceled e
is_canceled (signal_failed e) = pve_canceled e
is_canceled (mark_failed e) = pve_canceled e
is_canceled (destroy_failed e) = pve_canceled e
is_canceled wait_canceled = true
is_canceled _ = false

abbrev pub hold_off : World → Text → Outcome → Outcome
hold_off w name (none, st) = (none, st)
hold_off w name (some e, st) =
    if is_canceled e
    then (some e, st)
    else (some e, on_scale_set name (back_off (add (w.now st.calls) st.ctrl.retry_backoff)) st)

-- What `startCreate` runs.
unfoldable pub run_create : ℕ → World → ScaleSetState → Vm → ℤ → St → Option Outcome
run_create fuel w s template vmid st = elim (create fuel w s template vmid st) [
  | none ↦ none
  | some r ↦ some (hold_off w s.cfg.name r)
]
