-- ===== src/Examples/Fleet.antt =====
-- A small fleet for the examples: one scale set, one template, one idle worker.
use proxmox_actions_runners.Prelude.{pos, ◌+ℤ◌, true, false, List, [], ◌∷◌, none, some, codes}
use proxmox_actions_runners.Prelude.Results.{ok}
use proxmox_actions_runners.Prelude.Time.{Time, seconds, minutes, hours, zero_time}
use proxmox_actions_runners.Config
use proxmox_actions_runners.Config.{Config}
use proxmox_actions_runners.Proxmox.{Vm}
use proxmox_actions_runners.Controller.ScaleSet.{ScaleSetState}
use proxmox_actions_runners.Controller.Naming.{Worker}
use proxmox_actions_runners.Controller.State.{Controller}
use proxmox_actions_runners.Controller.RetireReason.{PassEnv}
use proxmox_actions_runners.Controller.Worker.{World, St, Call, removed}

abbrev pub hardware : Config.Worker
hardware = record { cores = pos 2; memory_mib = pos 4096; free_disk_gib = pos 20 }

abbrev pub linux_set : Config.ScaleSet
linux_set = record {
  name = codes "linux";
  labels = codes "linux" ∷ [];
  runner_group = codes "default";
  min_runners = pos 1;
  max_runners = pos 3;
  max_lifetime = hours 24;
  worker = hardware;
}

abbrev pub vmids : Config.VmidRange
vmids = record { start = pos 100; end = pos 110 }

abbrev pub cfg : Config
cfg = record {
  proxmox = record {
    url = codes "https://pve/api2/json";
    token_id = codes "t";
    token_secret_file = codes "/s";
    ca_cert_file = [];
    tls_server_name = [];
    tls_fingerprint = [];
    node = codes "n";
    pool = codes "p";
    storage = codes "l";
    zone = codes "z";
    vnet = codes "v";
    vmid_range = vmids;
    linked_clone = none;
  };
  github = record {
    config_url = codes "https://github.com/o/r";
    app = record { client_id = codes "c"; installation_id = pos 1; private_key_file = codes "/k" };
  };
  worker = hardware;
  scale_sets = linux_set ∷ [];
}

abbrev pub template_vm : Vm
template_vm = record {
  vmid = pos 108;
  name = codes "template";
  pool = codes "p";
  tags = codes "par-managed" ∷ codes "par-template" ∷ codes "par-tv-2" ∷ [];
  template = true;
  status = codes "stopped";
  max_disk_bytes = pos 0;
  max_mem_bytes = pos 0;
}

abbrev pub old_template_vm : Vm
old_template_vm = record template_vm {
  vmid = pos 109;
  tags = codes "par-managed" ∷ codes "par-template" ∷ codes "par-tv-1" ∷ [];
}

abbrev pub worker_vm : Vm
worker_vm = record template_vm {
  vmid = pos 100;
  name = codes "par-100-1s";
  tags =
      codes "par-managed"
      ∷ codes "par-worker"
      ∷ codes "par-ss-linux"
      ∷ codes "par-created-64"
      ∷ codes "par-tpl-108"
      ∷ codes "par-ready"
      ∷ [];
  template = false;
  status = codes "running";
}

abbrev pub listing : List Vm
listing = worker_vm ∷ template_vm ∷ old_template_vm ∷ []

abbrev pub idle : Worker
idle = record {
  vm = worker_vm;
  name = codes "par-100-1s";
  scale_set = codes "linux";
  created = seconds 64;
  ready = true;
}

abbrev pub linux : ScaleSetState
linux = record {
  cfg = linux_set;
  id = pos 7;
  desired = pos 2;
  known = true;
  busy = [];
  retry_after = zero_time;
  session_open = true;
  session_since = seconds 1;
  session_err = [];
  stats = none;
}

abbrev pub fleet : Controller
fleet = record {
  cfg = cfg;
  resync = seconds 15;
  boot_timeout = seconds 4;
  runner_check_after = minutes 10;
  runner_check_every = minutes 5;
  retry_backoff = seconds 10;
  agent_poll = seconds 2;
  slots = pos 3;
  scale_sets = (codes "linux", linux) ∷ [];
  wake = false;
  busy = [];
  foreign = [];
  last_runner_check = [];
  next_runner_check = zero_time;
  started = [];
  comparisons = [];
  status = [];
}

abbrev pub env : PassEnv
env = record { runner_by_name = λ vmid name. ok none; budget_over = λ vmid. false }

-- A clock that shows how long the controller has slept.
abbrev pub clock : List Call → Time
clock [] = pos 0
clock (Call.sleep d ∷ h) = clock h +ℤ d
clock (c ∷ h) = clock h

-- Everything succeeds, and every runner is registered with the ID 5.
abbrev pub world : World
world = record {
  now = clock;
  clone_answer = λ h o. none;
  set_config_answer = λ h i. none;
  grow_disk_answer = λ h i. none;
  start_answer = λ h i. none;
  stop_answer = λ h i. none;
  destroy_answer = λ h i. none;
  agent_ping_answer = λ h i. none;
  list_vms_answer = λ h. ok [];
  agent_write_file_answer = λ h i path. none;
  jit_config_answer = λ h name. ok (codes "jit");
  runner_by_name_answer = λ h name. ok (some (pos 5));
  remove_runner_answer = λ h id. removed;
  sleep_answer = λ h. true;
}

abbrev pub st : St
st = record { ctrl = fleet; calls = [] }
