-- ===== src/Controller/Run.antt =====
-- internal/controller/controller.go and worker.go: `Run` with its operations in the background, as
-- steps of a system. A pass, a handler and what an operation does are one step each; they come in
-- any order.
pub mod Frame
pub mod Invariant
pub mod Stopping
pub mod Foreign
pub mod Taken
use proxmox_actions_runners.Prelude.{
  ℕ, ◌+◌, ◌<◌, ℤ, pos_part, ◌==◌, int_eq, text_eq, ◌≡◌, Bool, true, false, if◌then◌else◌, List, [],
  ◌∷◌, ◌++◌, Text, Option, none, some, lookup, insert,
}
use proxmox_actions_runners.Prelude.Lists.{length}
use proxmox_actions_runners.Prelude.Results.{Result, ok}
use proxmox_actions_runners.Prelude.Time.{Time}
use proxmox_actions_runners.GitHub.RunnerRelease.{RunnerRelease}
use proxmox_actions_runners.Proxmox.{Vm}
use proxmox_actions_runners.Controller.ScaleSet
use proxmox_actions_runners.Controller.ScaleSet.{ScaleSetState, Stats}
use proxmox_actions_runners.Controller.State.{
  Controller, Op, retire, create, prune_template, op_vmid, Options, new, trigger, end_op,
}
use proxmox_actions_runners.Controller.RetireReason.{PassEnv, running}
use proxmox_actions_runners.Controller.Freshness.{compare_runner, end_comparison}
use proxmox_actions_runners.Controller.Reconcile.{reconcile}
use proxmox_actions_runners.Controller.Register.{Surroundings, Event, register_scale_sets}
use proxmox_actions_runners.Controller.Worker.{
  World, St, Call, Outcome, run_retire, destroy_tolerant,
}
use proxmox_actions_runners.Controller.Worker.Create.{run_create}

-- Where `Run` is: in a pass, at the `select`, at `listeners.Wait`, in `waitForOps`, or returned.
pub data Phase : Type 0 where
  reconciling selecting closing draining stopped : Phase

-- What GitHub's message session calls of a scale set.
pub data Message : Type 0 where
  desired : ℤ → Message
  job_started job_completed : Text → Message
  opened : Time → Message
  ended : Time → Text → Message
  stats : Stats → Message

-- The scale set's new state, and whether the loop is woken.
abbrev pub handle : Message → ScaleSetState → ScaleSetState × Bool
handle (desired n) s = let (after, _, wake) = ScaleSet.desired_runners n s in (after, wake)
handle (job_started runner) s = (ScaleSet.job_started runner s, false)
handle (job_completed runner) s = ScaleSet.job_completed runner s
handle (opened now) s = (ScaleSet.session_opened now s, false)
handle (ended now e) s = (ScaleSet.session_ended now e s, false)
handle (stats st) s = (ScaleSet.record_stats st s, false)

abbrev pub woken : Bool → Controller → Controller
woken wake c = if wake then trigger c else c

abbrev pub handled : Text → Message → Option ScaleSetState → Controller → Controller
handled name m none c = c
handled name m (some s) c =
    let (after, wake) = handle m s in
    woken wake (record c { scale_sets = insert name after c.scale_sets })

-- `waiting` are the operations in the background that hold no slot yet, `working` those that do;
-- `over` says that the context has ended.
pub record System : Type 0 where
  pub ctrl : Controller
  pub calls : List Call
  pub waiting : List Op
  pub working : List Op
  pub phase : Phase
  pub over : Bool

abbrev pub in_flight : System → List Op
in_flight s = s.waiting ++ s.working

-- How many operations the channel of slots lets through.
abbrev pub slots_of : Controller → ℕ
slots_of c = pos_part c.slots

-- What one operation does, from start to end.
pub data Ran (w : World) : Op → St → St → Type 0 where
  retired :
      {s : Option Text} {vm : Vm} {runner : Text} {force : Bool} {reason : _} {st : St}
      → Ran w
          (retire s vm runner force reason)
          st
          (run_retire w s vm.vmid (vm.status == running) runner force st).1
  created :
      {name : Text} {template : Vm} {vmid : ℤ} {st : St} (s : ScaleSetState) (fuel : ℕ)
      (r : Outcome)
      → lookup name st.ctrl.scale_sets ≡ some s
      → run_create fuel w s template vmid st ≡ some r
      → Ran w (create name template vmid) st r.1
  pruned : {vm : Vm} {st : St} → Ran w (prune_template vm) st (destroy_tolerant w vm.vmid st).1

-- A pass puts what it starts in the background.
abbrev pub passed : PassEnv → Time → Result Text (List Vm) → System → System
passed env now listing s =
    let c = (reconcile env now listing s.ctrl).0 in
    record s {
      ctrl = record c { started = [] };
      waiting = c.started ++ s.waiting;
      phase = selecting;
    }

abbrev pub released : Op → St → System → System
released op st s = record s { ctrl = end_op (op_vmid op) st.ctrl; calls = st.calls }

abbrev pub listening : Phase → Bool
listening reconciling = true
listening selecting = true
listening closing = true
listening _ = false

pub data Step (w : World) (s : System) : System → Type 0 where
  -- The body of the loop, and its three ways on.
  pass :
      (env : PassEnv) (now : Time) (listing : Result Text (List Vm))
      → s.phase ≡ reconciling
      → Step w s (passed env now listing s)
  tick : s.phase ≡ selecting → Step w s (record s { phase = reconciling })
  wake :
      s.phase ≡ selecting
      → s.ctrl.wake ≡ true
      → Step w s (record s { ctrl = record s.ctrl { wake = false }; phase = reconciling })
  done : s.phase ≡ selecting → s.over ≡ true → Step w s (record s { phase = closing })
  -- The context ends.
  cancel : Step w s (record s { over = true })
  message :
      (name : Text) (m : Message)
      → listening s.phase ≡ true
      → Step w s (record s { ctrl = handled name m (lookup name s.ctrl.scale_sets) s.ctrl })
  -- `startOp` in the background: a slot, or the end of the context, and the end of the operation.
  slot :
      (before after : List Op) (op : Op)
      → s.waiting ≡ before ++ op ∷ after
      → length s.working < slots_of s.ctrl
      → Step w s (record s { waiting = before ++ after; working = op ∷ s.working })
  quit :
      (before after : List Op) (op : Op)
      → s.waiting ≡ before ++ op ∷ after
      → s.over ≡ true
      → Step w s (record (released op (record { ctrl = s.ctrl; calls = s.calls }) s) {
        waiting = before ++ after;
      })
  finish :
      (before after : List Op) (op : Op) (st : St)
      → s.working ≡ before ++ op ∷ after
      → Ran w op (record { ctrl = s.ctrl; calls = s.calls }) st
      → Step w s (record (released op st s) { working = before ++ after })
  -- A check of the template's runner in the background.
  compare :
      (before after : List (Vm × Time)) (template : Vm) (now : Time)
      (latest : Result Text RunnerRelease)
      → s.ctrl.comparisons ≡ before ++ (template, now) ∷ after
      → Step w s (record s {
        ctrl =
            end_comparison
              (compare_runner latest template now).0
              (record s.ctrl { comparisons = before ++ after });
      })
  -- The sessions are closed; the operations are over, or waiting for them is given up.
  closed : s.phase ≡ closing → Step w s (record s { phase = draining })
  drained :
      s.phase ≡ draining
      → in_flight s ≡ []
      → s.ctrl.comparisons ≡ []
      → Step w s (record s { phase = stopped })
  abandon : s.phase ≡ draining → Step w s (record s { phase = stopped })

-- `Run` when the scale sets are registered.
abbrev pub run : Controller → List (Text × ScaleSetState) → System
run c registered = record {
  ctrl = record c { scale_sets = registered };
  calls = [];
  waiting = [];
  working = [];
  phase = reconciling;
  over = false;
}

pub data Reach {E : Type 0} (w : World) (env : Surroundings E) (opts : Options)
    : System → Type 0 where
  start :
      (c : Controller) (fuel : ℕ) (events : List Event) (registered : List (Text × ScaleSetState))
      → new opts ≡ ok c
      → register_scale_sets env fuel c.scale_sets [] ≡ some (true, registered, events)
      → Reach w env opts (run c registered)
  later : {s t : System} → Reach w env opts s → Step w s t → Reach w env opts t
