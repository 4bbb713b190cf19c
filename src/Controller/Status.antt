-- ===== src/Controller/Status.antt =====
-- internal/controller/status.go: the report of the scale sets.
use proxmox_actions_runners.Prelude.{
  ℕ, suc, Bool, false, List, [], ◌∷◌, Text, Option, none, some, if◌then◌else◌, lookup, text_eq,
}
use proxmox_actions_runners.Prelude.Strings.{text_less}
use proxmox_actions_runners.Prelude.Time
use proxmox_actions_runners.Controller.ScaleSet.{ScaleSetState, has_job}
use proxmox_actions_runners.Controller.Naming.{Worker}
use proxmox_actions_runners.Controller.Observe.{View, workers_of}
use proxmox_actions_runners.Controller.State.{Controller, ScaleSetStatus}

abbrev pub add_if : Bool → ℕ → ℕ
add_if b n = if b then suc n else n

-- The inner loop of `countWorkers`.
unfoldable pub count_into : ScaleSetState → List Worker → ScaleSetStatus → ScaleSetStatus
count_into s [] ss = ss
count_into s (w ∷ ws) ss = count_into s ws (record ss {
  workers = suc ss.workers;
  ready = add_if w.ready ss.ready;
  busy = add_if (has_job s w.name) ss.busy;
})

abbrev pub new_status : Text → ScaleSetState → ScaleSetStatus
new_status name s = record {
  name = name;
  id = s.id;
  session_open = false;
  session_since = Time.zero_time;
  session_error = [];
  desired = none;
  workers = 0;
  ready = 0;
  busy = 0;
  stats = none;
}

unfoldable pub insert_status : ScaleSetStatus → List ScaleSetStatus → List ScaleSetStatus
insert_status x [] = x ∷ []
insert_status x (y ∷ ys) =
    let rest = insert_status x ys in if text_less y.name x.name then y ∷ rest else x ∷ y ∷ ys

unfoldable pub count_all : List (Text × ScaleSetState) → View → List ScaleSetStatus
count_all [] v = []
count_all ((name, s) ∷ m) v =
    insert_status (count_into s (workers_of v name) (new_status name s)) (count_all m v)

-- The scale sets' counts, sorted by name.
unfoldable pub count_workers : View → Controller → Controller
count_workers v c = record c { status = count_all c.scale_sets v }

-- What `writeStatus` adds of each scale set before it writes the report.
abbrev pub with_session : Option ScaleSetState → ScaleSetStatus → ScaleSetStatus
with_session none ss = ss
with_session (some s) ss = record ss {
  session_open = s.session_open;
  session_since = s.session_since;
  session_error = s.session_err;
  desired = if s.known then some s.desired else none;
  stats = s.stats;
}

unfoldable pub written_status : List ScaleSetStatus → Controller → List ScaleSetStatus
written_status [] c = []
written_status (ss ∷ rest) c = with_session (lookup ss.name c.scale_sets) ss ∷ written_status rest c
