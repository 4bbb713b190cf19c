-- ===== src/Controller/Worker.antt =====
-- internal/controller/worker.go: what the operations in the background do. Proxmox, GitHub and the
-- clock are parameters: what they answer may depend on all calls made before.
pub mod Create
pub mod Retiring
pub mod Waiting
pub mod Creating
use proxmox_actions_runners.Prelude.{
  ℕ, zero, suc, ℤ, ◌==◌, int_eq, Bool, true, false, not, ◌&&◌, List, [], ◌∷◌, ◌++◌, Text, Option,
  none, some, if◌then◌else◌, codes, is_empty, insert, delete, lookup, text_eq, ltb_ℤ,
}
use proxmox_actions_runners.Prelude.Results.{Result, ok, err}
use proxmox_actions_runners.Prelude.Number.{itoa}
use proxmox_actions_runners.Prelude.Time.{Time, Duration, add, before, truncate_second}
use proxmox_actions_runners.Config
use proxmox_actions_runners.Config.{use_linked_clone}
use proxmox_actions_runners.Proxmox.{Vm}
use proxmox_actions_runners.Proxmox.Tags.{format_tags}
use proxmox_actions_runners.Proxmox.Errors.{
  PveError, canceled, is_vmid_in_use, is_forbidden, is_agent_not_ready,
}
use proxmox_actions_runners.Controller.Naming.{
  worker_name, worker_tags, jit_config_path, jit_ready_path,
}
use proxmox_actions_runners.Controller.ScaleSet.{ScaleSetState, forget, mark_running, back_off}
use proxmox_actions_runners.Controller.State.{Controller}

pub record CloneOptions : Type 0 where
  pub source_vmid : ℤ
  pub new_vmid : ℤ
  pub name : Text
  pub pool : Text
  pub full : Bool
  pub storage : Text
  pub description : Text

-- A call of Proxmox or GitHub, or a wait.
pub data Call : Type 0 where
  clone : CloneOptions → Call
  set_config : ℤ → List (Text × Text) → Call
  grow_disk : ℤ → Text → ℤ → Call
  start stop destroy agent_ping : ℤ → Call
  list_vms : Call
  agent_write_file : ℤ → Text → Text → Call
  generate_jit_config : ℤ → Text → Call
  runner_by_name : Text → Call
  remove_runner : ℤ → Call
  sleep : Duration → Call

pub data Removal : Type 0 where
  removed job_still_running removal_failed : Removal

-- What Proxmox, GitHub and the clock answer after a history of calls, newest first. `none` is
-- success. A refused registration says whether the context had ended, a wait whether it lasted.
pub record World : Type 0 where
  pub now : List Call → Time
  pub clone_answer : List Call → CloneOptions → Option PveError
  pub set_config_answer : List Call → ℤ → Option PveError
  pub grow_disk_answer : List Call → ℤ → Option PveError
  pub start_answer : List Call → ℤ → Option PveError
  pub stop_answer : List Call → ℤ → Option PveError
  pub destroy_answer : List Call → ℤ → Option PveError
  pub agent_ping_answer : List Call → ℤ → Option PveError
  pub list_vms_answer : List Call → Result PveError (List Vm)
  pub agent_write_file_answer : List Call → ℤ → Text → Option PveError
  pub jit_config_answer : List Call → Text → Result Bool Text
  pub runner_by_name_answer : List Call → Text → Result Text (Option ℤ)
  pub remove_runner_answer : List Call → ℤ → Removal
  pub sleep_answer : List Call → Bool

-- The controller, and the calls made, newest first.
pub record St : Type 0 where
  pub ctrl : Controller
  pub calls : List Call

pub data OpError : Type 0 where
  runner_busy find_runner_failed remove_runner_failed : OpError
  destroy_failed configure_failed grow_failed start_failed : PveError → OpError
  clone_taken clone_failed agent_failed deliver_failed signal_failed mark_failed :
      PveError → OpError
  register_failed : (canceled : Bool) → OpError
  agent_timeout wait_canceled : OpError

abbrev pub Outcome : Type 0
Outcome = Option OpError × St

abbrev pub called : Call → St → St
called c st = record st { calls = c ∷ st.calls }

abbrev pub removal_result : Removal → Option OpError
removal_result removed = none
removal_result job_still_running = some runner_busy
removal_result removal_failed = some remove_runner_failed

abbrev pub remove_found : World → Result Text (Option ℤ) → St → Outcome
remove_found w (err e) st = (some find_runner_failed, st)
remove_found w (ok none) st = (none, st)
remove_found w (ok (some id)) st =
    (removal_result (w.remove_runner_answer st.calls id), called (remove_runner id) st)

-- `removeRunner`
unfoldable pub unregister : World → Text → St → Outcome
unregister w name st =
    remove_found w (w.runner_by_name_answer st.calls name) (called (runner_by_name name) st)

unfoldable pub is_listed : ℤ → List Vm → Bool
is_listed vmid [] = false
is_listed vmid (vm ∷ vms) = if vm.vmid == vmid then true else is_listed vmid vms

abbrev pub gone_unless_listed : ℤ → PveError → Result PveError (List Vm) → Option OpError
gone_unless_listed vmid e (err f) = some (destroy_failed e)
gone_unless_listed vmid e (ok vms) = if is_listed vmid vms then some (destroy_failed e) else none

abbrev pub destroy_result : World → ℤ → Option PveError → St → Outcome
destroy_result w vmid none st = (none, st)
destroy_result w vmid (some e) st =
    if is_forbidden e
    then (gone_unless_listed vmid e (w.list_vms_answer st.calls), called list_vms st)
    else (some (destroy_failed e), st)

-- `destroy`
unfoldable pub destroy_tolerant : World → ℤ → St → Outcome
destroy_tolerant w vmid st =
    destroy_result w vmid (w.destroy_answer st.calls vmid) (called (destroy vmid) st)

-- `destroyVM`: a failed stop is ignored.
unfoldable pub destroy_vm : World → ℤ → Bool → St → Outcome
destroy_vm w vmid running st =
    destroy_tolerant w vmid (if running then called (stop vmid) st else st)

unfoldable pub forget_all : Text → List (Text × ScaleSetState) → List (Text × ScaleSetState)
forget_all runner [] = []
forget_all runner ((name, s) ∷ m) = (name, forget runner s) ∷ forget_all runner m

abbrev pub forget_runner : Text → St → St
forget_runner runner st = record st {
  ctrl = record st.ctrl { scale_sets = forget_all runner st.ctrl.scale_sets };
}

abbrev pub drop_check : ℤ → St → St
drop_check vmid st = record st {
  ctrl = record st.ctrl { last_runner_check = delete vmid st.ctrl.last_runner_check };
}

-- The end of `retire`, when the VM is gone.
abbrev pub after_destroy : World → ℤ → Text → Bool → Outcome → Outcome
after_destroy w vmid runner force (some e, st) = (some e, st)
after_destroy w vmid runner force (none, st) =
    let dropped = drop_check vmid st in
    if not (is_empty runner) && force
    then (none, forget_runner runner (unregister w runner dropped).1)
    else (none, dropped)

abbrev pub after_unregister : World → ℤ → Bool → Text → Outcome → Outcome
after_unregister w vmid running runner (some e, st) = (some e, st)
after_unregister w vmid running runner (none, st) =
    after_destroy w vmid runner false (destroy_vm w vmid running (forget_runner runner st))

-- `retire`
unfoldable pub retire : World → ℤ → Bool → Text → Bool → St → Outcome
retire w vmid running runner force st =
    if not (is_empty runner) && not force
    then after_unregister w vmid running runner (unregister w runner st)
    else after_destroy w vmid runner force (destroy_vm w vmid running st)

-- The scale set that a name stands for is changed.
unfoldable pub update_scale_set :
    Text
    → (ScaleSetState → ScaleSetState)
    → List (Text × ScaleSetState)
    → List (Text × ScaleSetState)
update_scale_set name f [] = []
update_scale_set name f ((k, s) ∷ m) =
    if k == name then (k, f s) ∷ m else (k, s) ∷ update_scale_set name f m

abbrev pub on_scale_set : Text → (ScaleSetState → ScaleSetState) → St → St
on_scale_set name f st = record st {
  ctrl = record st.ctrl { scale_sets = update_scale_set name f st.ctrl.scale_sets };
}

abbrev pub note_busy : Option Text → Text → Outcome → Outcome
note_busy (some name) runner (some runner_busy, st) =
    (some runner_busy, on_scale_set name (mark_running runner) st)
note_busy s runner r = r

-- What `startRetire` runs.
unfoldable pub run_retire : World → Option Text → ℤ → Bool → Text → Bool → St → Outcome
run_retire w s vmid running runner force st =
    note_busy s runner (retire w vmid running runner force st)

-- `waitForAgent`; `none` means that the fuel ran out.
unfoldable pub wait_for_agent : ℕ → World → ℤ → Time → St → Option Outcome
wait_for_agent zero w vmid deadline st = none
wait_for_agent (suc fuel) w vmid deadline st =
    let pinged = called (agent_ping vmid) st in
    let slept = called (sleep st.ctrl.agent_poll) pinged in
    let again = wait_for_agent fuel w vmid deadline slept in
    elim (w.agent_ping_answer st.calls vmid) [
      | none ↦ some (none, pinged)
      | some e ↦
          if not (is_agent_not_ready e)
          then some (some (agent_failed e), pinged)
          else if not (before (w.now pinged.calls) deadline)
          then some (some agent_timeout, pinged)
          else if not (w.sleep_answer pinged.calls)
          then some (some wait_canceled, slept)
          else again
    ]
