-- ===== src/Proxmox/Tasks.antt =====
-- internal/proxmox/tasks.go: waiting for a task. The API's answers, and whether a wait runs to its end,
-- can depend on what happened before, kept newest first.
pub mod Ends
use proxmox_actions_runners.Prelude.{
  ℕ, zero, suc, ℤ, pos, leb_ℤ, ltb_ℤ, ◌+ℤ◌, min_ℤ, ◌==◌, text_eq, Bool, true, false, not, ◌||◌,
  List, [], ◌∷◌, Text, Option, none, some, is_some, codes, is_empty, has_prefix, if◌then◌else◌,
}
use proxmox_actions_runners.Prelude.Results.{Result, ok, err}
use proxmox_actions_runners.Prelude.Time.{Duration, seconds}
use proxmox_actions_runners.Proxmox.Errors.{PveError, task, canceled}

abbrev pub task_ok : Text
task_ok = codes "OK"

abbrev pub task_warnings : Text
task_warnings = codes "WARNINGS"

pub record TaskStatus : Type 0 where
  pub status : Text
  pub exit_status : Text

pub data Event : Type 0 where
  got_status : (upid : Text) → Event
  waited : Duration → Event

-- What surrounds the client, and its options for the two intervals.
pub record Api : Type 0 where
  pub status_answer : List Event → Text → Result PveError TaskStatus
  pub wait_ends : List Event → Duration → Bool
  pub poll_option : Duration
  pub max_poll_option : Duration

-- internal/proxmox/client.go: the intervals that `New` sets.
abbrev pub default_poll_interval : Duration
default_poll_interval = pos 250000000

abbrev pub default_max_poll_interval : Duration
default_max_poll_interval = seconds 2

abbrev pub or_default : Duration → Duration → Duration
or_default d def = if leb_ℤ d (pos 0) then def else d

abbrev pub poll_interval : Api → Duration
poll_interval api = or_default api.poll_option default_poll_interval

abbrev pub max_poll_interval : Api → Duration
max_poll_interval api =
    let longest = or_default api.max_poll_option default_max_poll_interval in
    if ltb_ℤ longest (poll_interval api) then poll_interval api else longest

-- Whether a check is done, its error, and what has happened.
abbrev pub Check : Type 0
Check = List Event → Bool × Option PveError × List Event

abbrev pub next_interval : Api → Duration → Duration
next_interval api interval = min_ℤ (interval +ℤ interval) (max_poll_interval api)

-- The loop of `poll`; `none` is out of fuel.
unfoldable pub poll_loop :
    Api → Check → ℕ → Duration → List Event → Option (Option PveError × List Event)
poll_loop api check zero interval events = none
poll_loop api check (suc fuel) interval events =
    let checked = check events in
    let after = checked.2 in
    let again = poll_loop api check fuel (next_interval api interval) (waited interval ∷ after) in
    if checked.0 || is_some checked.1
    then some (checked.1, after)
    else if api.wait_ends after interval
    then again
    else some (some canceled, waited interval ∷ after)

unfoldable pub poll : Api → Check → ℕ → List Event → Option (Option PveError × List Event)
poll api check fuel events = poll_loop api check fuel (poll_interval api) events

unfoldable pub verdict : Result PveError TaskStatus → Bool × Option PveError
verdict (err e) = (false, some e)
verdict (ok st) =
    if not (st.status == codes "stopped")
    then (false, none)
    else if st.exit_status == task_ok || has_prefix st.exit_status task_warnings
    then (true, none)
    else (true, some (task st.exit_status))

unfoldable pub task_check : Api → Text → Check
unfolding verdict
task_check api upid events =
    let v = verdict (api.status_answer events upid) in (v.0, v.1, got_status upid ∷ events)

unfoldable pub wait_task : Api → Text → ℕ → List Event → Option (Option PveError × List Event)
wait_task api upid fuel events = poll api (task_check api upid) fuel events

-- `runTask`, of the answer to the request that starts the task.
unfoldable pub run_task :
    Api → Result PveError Text → ℕ → List Event → Option (Option PveError × List Event)
run_task api (err e) fuel events = some (some e, events)
run_task api (ok upid) fuel events =
    if is_empty upid then some (none, events) else wait_task api upid fuel events
