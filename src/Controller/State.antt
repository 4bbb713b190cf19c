-- ===== src/Controller/State.antt =====
-- internal/controller/controller.go and worker.go: the controller's state, and the operations in
-- flight. An operation that is started in the background is put on `started`, newest first; what it
-- does is in Worker.antt.
use proxmox_actions_runners.Prelude.{
  ℕ, suc, ℤ, pos, leb_ℤ, ◌==◌, int_eq, text_eq, Bool, true, false, ◌||◌, not, List, [], ◌∷◌, ◌++◌,
  Text, Option, none, some, is_some, codes, if◌then◌else◌, lookup, insert, delete, has_prefix,
}
use proxmox_actions_runners.Prelude.Results.{Result, ok, err}
use proxmox_actions_runners.Prelude.Time.{Time, Duration, seconds, minutes, zero_time}
use proxmox_actions_runners.Config
use proxmox_actions_runners.Config.{Config}
use proxmox_actions_runners.Proxmox.{Vm}
use proxmox_actions_runners.Controller.ScaleSet.{ScaleSetState, Stats, new_scale_set_state}

-- Why a worker is retired.
pub data Reason : Type 0 where
  older powered_off scale_set_removed half_created runner_gone too_many : Reason

-- What is started in the background. `retire` has the worker's scale set, if it has a configured
-- one, the VM, the runner's name (empty if there is none), and whether a job doesn't stop it.
pub data Op : Type 0 where
  retire : Option Text → Vm → Text → Bool → Reason → Op
  create : Text → (template : Vm) → (vmid : ℤ) → Op
  prune_template : Vm → Op

abbrev pub op_vmid : Op → ℤ
op_vmid (retire s vm runner force reason) = vm.vmid
op_vmid (create s template vmid) = vmid
op_vmid (prune_template vm) = vm.vmid

abbrev pub op_create_prefix : Text
op_create_prefix = codes "create:"

-- What `startOp` is told that the operation is.
abbrev pub op_label : Op → Text
op_label (retire s vm runner force reason) = codes "retire"
op_label (create s template vmid) = op_create_prefix ++ s
op_label (prune_template vm) = codes "prune template"

-- internal/controller/status.go: one scale set's state, for the report.
pub record ScaleSetStatus : Type 0 where
  pub name : Text
  pub id : ℤ
  pub session_open : Bool
  pub session_since : Time
  pub session_error : Text
  pub desired : Option ℤ
  pub workers : ℕ
  pub ready : ℕ
  pub busy : ℕ
  pub stats : Option Stats

-- `comparisons` holds the runner checks that were started in the background, newest first.
pub record Controller : Type 0 where
  pub cfg : Config
  pub resync : Duration
  pub boot_timeout : Duration
  pub runner_check_after : Duration
  pub runner_check_every : Duration
  pub retry_backoff : Duration
  pub agent_poll : Duration
  pub slots : ℤ
  pub scale_sets : List (Text × ScaleSetState)
  pub wake : Bool
  pub busy : List (ℤ × Text)
  pub foreign : List (ℤ × Bool)
  pub last_runner_check : List (ℤ × Time)
  pub next_runner_check : Time
  pub started : List Op
  pub comparisons : List (Vm × Time)
  pub status : List ScaleSetStatus

-- The options that are not about logging, and whether the two clients are there.
pub record Options : Type 0 where
  pub config : Option Config
  pub has_proxmox : Bool
  pub has_github : Bool
  pub resync_interval : Duration
  pub boot_timeout : Duration
  pub runner_check_after : Duration
  pub runner_check_every : Duration
  pub parallelism : ℤ
  pub retry_backoff : Duration

pub data NewError : Type 0 where
  missing_option : NewError

unfoldable pub or_default : Duration → Duration → Duration
or_default d def = if leb_ℤ d (pos 0) then def else d

unfoldable pub new_scale_sets :
    List Config.ScaleSet → List (Text × ScaleSetState) → List (Text × ScaleSetState)
new_scale_sets [] m = m
new_scale_sets (s ∷ ss) m = new_scale_sets ss (insert s.name (new_scale_set_state s) m)

abbrev pub with_config : Options → Config → Controller
with_config opts cfg = record {
  cfg = cfg;
  resync = or_default opts.resync_interval (seconds 15);
  boot_timeout = or_default opts.boot_timeout (minutes 10);
  runner_check_after = or_default opts.runner_check_after (minutes 10);
  runner_check_every = or_default opts.runner_check_every (minutes 5);
  retry_backoff = or_default opts.retry_backoff (seconds 10);
  agent_poll = seconds 2;
  slots = if leb_ℤ opts.parallelism (pos 0) then pos 3 else opts.parallelism;
  scale_sets = new_scale_sets cfg.scale_sets [];
  wake = false;
  busy = [];
  foreign = [];
  last_runner_check = [];
  next_runner_check = zero_time;
  started = [];
  comparisons = [];
  status = [];
}

-- `New`
unfoldable pub new : Options → Result NewError Controller
new opts = elim opts.config [
  | none ↦ err missing_option
  | some cfg ↦
      if not opts.has_proxmox || not opts.has_github
      then err missing_option
      else ok (with_config opts cfg)
]

-- `trigger`: calls while a pass is pending coalesce.
abbrev pub trigger : Controller → Controller
trigger c = record c { wake = true }

unfoldable pub is_busy : Controller → ℤ → Bool
is_busy c vmid = is_some (lookup vmid c.busy)

-- `startOp`, up to where the background starts.
unfoldable pub start_op : Op → Controller → Controller
start_op op c =
    if is_busy c (op_vmid op)
    then c
    else record c { busy = insert (op_vmid op) (op_label op) c.busy; started = op ∷ c.started }

-- The end of an operation in the background: its VMID is released and the loop is woken.
unfoldable pub end_op : ℤ → Controller → Controller
end_op vmid c = trigger (record c { busy = delete vmid c.busy })

unfoldable pub count_ops : Text → List (ℤ × Text) → ℕ
count_ops label [] = 0
count_ops label ((vmid, op) ∷ m) = let n = count_ops label m in if op == label then suc n else n

unfoldable pub creating_for : Text → Controller → ℕ
creating_for scale_set c = count_ops (op_create_prefix ++ scale_set) c.busy

unfoldable pub any_creation : List (ℤ × Text) → Bool
any_creation [] = false
any_creation ((vmid, op) ∷ m) = has_prefix op op_create_prefix || any_creation m

unfoldable pub creating_any : Controller → Bool
creating_any c = any_creation c.busy
