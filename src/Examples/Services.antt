-- ===== src/Examples/Services.antt =====
-- GitHub's scale sets, their registration and Proxmox's tasks at concrete inputs.
use proxmox_actions_runners.Prelude.{
  ℤ, pos, int_eq, text_eq, ◌==◌, ==-refl, true, ◌&&◌, List, [], ◌∷◌, Text, Option, none, some,
  codes, text_beq, ◌≡◌, refl, ap, subst, arith, if◌then◌else◌, leb,
}
use proxmox_actions_runners.Prelude.Results.{Result, ok, err}
use proxmox_actions_runners.Prelude.TextSets.{covers}
use proxmox_actions_runners.GitHub.ScaleSets
use proxmox_actions_runners.GitHub.ScaleSets.{
  Call, Library, Label, RunnerScaleSet, ScaleSetSpec, ScaleSet, create_scale_set, update_scale_set,
  same_labels, ensure_scale_set,
}
use proxmox_actions_runners.GitHub.ScaleSets.Labels.{lower_names, same_labels-covers}
use proxmox_actions_runners.GitHub.ScaleSets.Settled.{
  Stores, AsAsked, writes, is_read, ensure_scale_set-settles,
}
use proxmox_actions_runners.Controller.ScaleSet.{ScaleSetState}
use proxmox_actions_runners.GitHub.Listen
use proxmox_actions_runners.GitHub.Listen.{ListenOptions, listen}
use proxmox_actions_runners.GitHub.Listen.Paced.{Usable, Over, Paced, sessions, listen-Paced}
use proxmox_actions_runners.Controller.Register
use proxmox_actions_runners.Controller.Register.{Surroundings, register_scale_sets}
use proxmox_actions_runners.Controller.Register.Live.{
  Answers, AllRegistered, ShortWaits, event_count, register_scale_sets-live,
}
use proxmox_actions_runners.Proxmox.Tasks.{Api, run_task}
use proxmox_actions_runners.Proxmox.Tasks.Ends
use proxmox_actions_runners.Proxmox.Tasks.Ends.{Stops, Ended, run_task-Ended}
use proxmox_actions_runners.Examples.Fleet.{linux}

abbrev gpu : Label
gpu = record { name = codes "GPU" }

abbrev lower_gpu : Label
lower_gpu = record { name = codes "gpu" }

abbrev arm : Label
arm = record { name = codes "arm" }

same_labels-covers_example : same_labels (gpu ∷ arm ∷ []) (arm ∷ lower_gpu ∷ lower_gpu ∷ []) ≡ (
    covers (lower_names (gpu ∷ arm ∷ [])) (lower_names (arm ∷ lower_gpu ∷ lower_gpu ∷ []))
    && covers (lower_names (arm ∷ lower_gpu ∷ lower_gpu ∷ [])) (lower_names (gpu ∷ arm ∷ [])))
same_labels-covers_example = same_labels-covers (gpu ∷ arm ∷ []) (arm ∷ lower_gpu ∷ lower_gpu ∷ [])

-- A GitHub that keeps one scale set for a group and a name: the last that was written.
abbrev kept : RunnerScaleSet → ℤ → Text → Option RunnerScaleSet → Option RunnerScaleSet
kept s group_id name rest = if s.runner_group_id == group_id && s.name == name then some s else rest

unfoldable replay : List Call → ℤ → Text → Option RunnerScaleSet
replay [] group_id name = none
replay (create_scale_set want ∷ h) group_id name =
    kept (record want { id = pos 7 }) group_id name (replay h group_id name)
replay (update_scale_set id want ∷ h) group_id name =
    kept (record want { id = id }) group_id name (replay h group_id name)
replay (ScaleSets.get_group n ∷ h) group_id name = replay h group_id name
replay (ScaleSets.get_scale_set g n ∷ h) group_id name = replay h group_id name
replay (ScaleSets.delete_call id ∷ h) group_id name = replay h group_id name

abbrev github : Library Text
github = record {
  default_runner_group = codes "default";
  get_group_answer = λ h name. ok (pos 5);
  get_scale_set_answer = λ h g name. ok (replay h g name);
  create_answer = λ h want. ok (record want { id = pos 7 });
  update_answer = λ h id want. ok (record want { id = id });
  delete_answer = λ h id. none;
}

kept_same :
    (s : RunnerScaleSet) (rest : Option RunnerScaleSet)
    → kept s s.runner_group_id s.name rest ≡ some s
kept_same s rest = rw (==-refl s.runner_group_id, ==-refl s.name) refl

abbrev answer : Option RunnerScaleSet → Result Text (Option RunnerScaleSet)
answer o = ok o

stored :
    (want x s : RunnerScaleSet) (rest : Option RunnerScaleSet)
    → AsAsked want x
    → kept x want.runner_group_id want.name rest ≡ some x
    → x ≡ s
    → AsAsked want s × (answer (kept x want.runner_group_id want.name rest) ≡ answer (some s))
stored want x s rest a k e =
    subst
      (λ z.
        AsAsked want z × (answer (kept x want.runner_group_id want.name rest) ≡ answer (some z)))
      e (a, ap answer k)

github-Stores : Stores github
unfolding replay
github-Stores = record {
  groups = λ h k name id e. e;
  created = λ h want s e.
      stored want (record want { id = pos 7 }) s (replay h want.runner_group_id want.name)
        (refl, refl)
        (kept_same (record want { id = pos 7 }) (replay h want.runner_group_id want.name)) (cc e);
  updated = λ h id want s e.
      stored want (record want { id = id }) s (replay h want.runner_group_id want.name) (refl, refl)
        (kept_same (record want { id = id }) (replay h want.runner_group_id want.name)) (cc e);
  reading = λ h c g name r. reads h c g name r;
}
  where
    reads :
        (h : List Call) (c : Call) (g : ℤ) (name : Text)
        → is_read c ≡ true
        → github.get_scale_set_answer (c ∷ h) g name ≡ github.get_scale_set_answer h g name
    reads h (ScaleSets.get_group n) g name r = refl
    reads h (ScaleSets.get_scale_set i n) g name r = refl
    reads h (create_scale_set want) g name r = cc
    reads h (update_scale_set i want) g name r = cc
    reads h (ScaleSets.delete_call i) g name r = cc

abbrev spec : ScaleSetSpec
spec = record { name = codes "linux"; labels = codes "linux" ∷ []; runner_group = codes "team" }

abbrev after : List Call
after = (ensure_scale_set github spec []).1

abbrev made : ScaleSet
made = record {
  id = pos 7;
  name = codes "linux";
  runner_group_id = pos 5;
  labels = codes "linux" ∷ [];
}

made_first : ensure_scale_set github spec [] ≡ (ok made, after)
unfolding ensure_scale_set ScaleSets.and_then ScaleSets.runner_group_id ScaleSets.match_spec
    ScaleSets.from_scale_set ScaleSets.to_labels replay text_beq
made_first = refl

ensure_scale_set-settles_example :
    ((ensure_scale_set github spec after).0 ≡ ok made)
    × (writes (ensure_scale_set github spec after).1 ≡ writes after)
ensure_scale_set-settles_example =
    ensure_scale_set-settles github github-Stores spec [] after made made_first

-- GitHub answers from the third event on.
abbrev slow_github : Surroundings Text
slow_github = record {
  ensure_answer = λ es spec1. if leb 3 (event_count es) then ok made else err (codes "unreachable");
  wait_ends = λ es d. true;
}

slow_github-Answers : Answers slow_github 3
slow_github-Answers = record {
  answers = λ es spec1 h. (made, ground (arith, h));
  waits = λ es d. refl;
}

register_scale_sets-live_example :
    (out : List (Text × ScaleSetState)) × ((fs : List Register.Event) × ((register_scale_sets
            slow_github 4
            ((codes "linux", linux) ∷ [])
            []
          ≡ some (true, out, fs))
        × (AllRegistered slow_github ((codes "linux", linux) ∷ []) out × ShortWaits fs)))
register_scale_sets-live_example =
    register_scale_sets-live slow_github 3 slow_github-Answers ((codes "linux", linux) ∷ []) [] tt

-- A task that runs until the third event and ends with a warning.
abbrev task_api : Api
task_api = record {
  status_answer = λ es upid. ok (record {
    status = if leb 3 (Ends.event_count es) then codes "stopped" else codes "running";
    exit_status = codes "WARNINGS: 1";
  });
  wait_ends = λ es d. true;
  poll_option = pos 0;
  max_poll_option = pos 0;
}

task_api-Stops : Stops task_api (codes "UPID:n") 3
task_api-Stops = record { stopped = λ es st h e. ground (arith, h, e); waits = λ es d. refl }

run_task-Ended_example :
    Ended task_api (codes "UPID:n") (run_task task_api (ok (codes "UPID:n")) 4 [])
run_task-Ended_example = run_task-Ended task_api (codes "UPID:n") 3 task_api-Stops refl

abbrev listen_options : ListenOptions
listen_options = record {
  scale_set_id = pos 7;
  max_runners = pos 3;
  owner = codes "host";
  min_backoff = pos 0;
  max_backoff = pos 0;
}

-- A GitHub that cannot be reached, until the context ends after three sessions.
abbrev unreachable : Listen.Surroundings
unreachable = record {
  now = λ es. pos 0;
  over = λ es. leb 3 (sessions es);
  open_answer = λ es. some (codes "unreachable");
  new_answer = λ es. none;
  run_answer = λ es. none;
  wait_ends = λ es d. true;
}

listen_options-Usable : Usable listen_options
unfolding Listen.min_backoff_of Listen.max_backoff_of
listen_options-Usable = (ground arith, ground arith)

listen-Paced_example :
    (out : List Listen.Event) × (listen unreachable 4 listen_options ≡ some out)
    × Over unreachable listen_options out
    × Paced listen_options out
listen-Paced_example =
    listen-Paced unreachable listen_options 3 listen_options-Usable (λ es h. ground (arith, h))
