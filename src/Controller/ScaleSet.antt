-- ===== src/Controller/ScaleSet.antt =====
-- internal/controller/scaleset.go: one scale set's view of what GitHub wants. A handler that wakes
-- the reconcile loop returns that with the new state.
pub mod Jobs
pub mod Target
use proxmox_actions_runners.Prelude.{
  ℤ, pos, ◌+ℤ◌, ltb_ℤ, min_ℤ, ◌==◌, int_eq, text_eq, Bool, true, false, ◌||◌, not, List, [], Text,
  Option, none, some, get_or, if◌then◌else◌, beq_ℤ, text_beq, lookup, insert, delete,
}
use proxmox_actions_runners.Prelude.Int.{wrap64}
use proxmox_actions_runners.Prelude.Time.{Time, zero_time, before}
use proxmox_actions_runners.Config

-- internal/github/listen.go: GitHub's counts for a scale set.
pub record Stats : Type 0 where
  pub available_jobs : ℤ
  pub acquired_jobs : ℤ
  pub assigned_jobs : ℤ
  pub running_jobs : ℤ
  pub registered_runners : ℤ
  pub busy_runners : ℤ
  pub idle_runners : ℤ

pub record ScaleSetState : Type 0 where
  pub cfg : Config.ScaleSet
  pub id : ℤ
  pub desired : ℤ
  pub known : Bool
  pub busy : List (Text × Bool)
  pub retry_after : Time
  pub session_open : Bool
  pub session_since : Time
  pub session_err : Text
  pub stats : Option Stats

unfoldable pub new_scale_set_state : Config.ScaleSet → ScaleSetState
new_scale_set_state cfg = record {
  cfg = cfg;
  id = pos 0;
  desired = pos 0;
  known = false;
  busy = [];
  retry_after = zero_time;
  session_open = false;
  session_since = zero_time;
  session_err = [];
  stats = none;
}

unfoldable pub session_opened : Time → ScaleSetState → ScaleSetState
session_opened now s = record s { session_open = true; session_since = now; session_err = [] }

unfoldable pub session_ended : Time → Text → ScaleSetState → ScaleSetState
session_ended now error s = record s {
  session_open = false;
  session_since = now;
  session_err = error;
}

unfoldable pub record_stats : Stats → ScaleSetState → ScaleSetState
record_stats st s = record s { stats = some st }

-- The target that `DesiredRunners` computes; the sum is a Go `int`.
unfoldable pub desired_target : Config.ScaleSet → ℤ → ℤ
desired_target cfg assigned_jobs = min_ℤ cfg.max_runners (wrap64 (cfg.min_runners +ℤ assigned_jobs))

-- The new state, the target returned to GitHub, and whether the loop is woken.
unfoldable pub desired_runners : ℤ → ScaleSetState → ScaleSetState × ℤ × Bool
desired_runners assigned_jobs s =
    let target = desired_target s.cfg assigned_jobs in
    (record s { desired = target; known = true }, target, not s.known || not (s.desired == target))

unfoldable pub job_started : Text → ScaleSetState → ScaleSetState
job_started runner s = record s { busy = insert runner true s.busy }

-- The loop is always woken.
unfoldable pub job_completed : Text → ScaleSetState → ScaleSetState × Bool
job_completed runner s = (record s { busy = delete runner s.busy }, true)

-- The desired worker count, once it is known.
unfoldable pub target : ScaleSetState → ℤ × Bool
target s = (s.desired, s.known)

unfoldable pub has_job : ScaleSetState → Text → Bool
has_job s runner = get_or (lookup runner s.busy) false

unfoldable pub mark_running : Text → ScaleSetState → ScaleSetState
mark_running runner s = record s { busy = insert runner true s.busy }

unfoldable pub forget : Text → ScaleSetState → ScaleSetState
forget runner s = record s { busy = delete runner s.busy }

unfoldable pub back_off : Time → ScaleSetState → ScaleSetState
back_off until s = record s { retry_after = until }

unfoldable pub can_create : ScaleSetState → Time → Bool
can_create s now = not (before now s.retry_after)
