-- ===== src/GitHub/Listen.antt =====
-- internal/github/listen.go: `Listen`. The sessions and listeners of the library actions/scaleset,
-- the context and the clock are parameters: what they answer may depend on all that happened before.
pub mod Paced
use proxmox_actions_runners.Prelude.{
  ℕ, zero, suc, ℤ, pos, ◌*◌, ◌+ℤ◌, leb_ℤ, min_ℤ, max_ℤ, ◌==◌, int_eq, Bool, true, false, List, [],
  ◌∷◌, ◌++◌, Text, Option, none, some, get_or, codes, if◌then◌else◌,
}
use proxmox_actions_runners.Prelude.Int.{wrap64}
use proxmox_actions_runners.Prelude.Time.{Time, Duration, seconds, minutes, sub}
use proxmox_actions_runners.Controller.ScaleSet.{Stats}

pub record Job : Type 0 where
  pub job_id : Text
  pub runner_name : Text
  pub runner_id : ℤ

-- The options that a session's calls pass on are the scale set's ID, the capacity and the owner.
pub record ListenOptions : Type 0 where
  pub scale_set_id : ℤ
  pub max_runners : ℤ
  pub owner : Text
  pub min_backoff : Duration
  pub max_backoff : Duration

abbrev pub default_min_backoff : Duration
default_min_backoff = seconds 1

abbrev pub default_max_backoff : Duration
default_max_backoff = minutes 1

abbrev pub healthy_session : Duration
healthy_session = minutes 1

abbrev pub close_timeout : Duration
close_timeout = seconds 30

-- `cmp.Or` of two durations.
abbrev pub or_default : Duration → Duration → Duration
or_default d e = if d == pos 0 then e else d

unfoldable pub min_backoff_of : ListenOptions → Duration
min_backoff_of opts = or_default opts.min_backoff default_min_backoff

unfoldable pub max_backoff_of : ListenOptions → Duration
max_backoff_of opts = max_ℤ (or_default opts.max_backoff default_max_backoff) (min_backoff_of opts)

-- What happens: a session is asked for, opened, listened to and closed, the handler hears of its
-- opening and of its end after some time, and a wait.
pub data Event : Type 0 where
  asked : (scale_set_id : ℤ) → (owner : Text) → Event
  observed_open : Event
  listened : (scale_set_id : ℤ) → (max_runners : ℤ) → Event
  closed : (timeout : Duration) → Event
  observed_end : (lasted : Duration) → (error : Text) → Event
  waited : Duration → Event

-- An answer of `none` is success; `over` says whether the context has ended.
pub record Surroundings : Type 0 where
  pub now : List Event → Time
  pub over : List Event → Bool
  pub open_answer : List Event → Option Text
  pub new_answer : List Event → Option Text
  pub run_answer : List Event → Option Text
  pub wait_ends : List Event → Duration → Bool

-- The wait after a session that took so long.
abbrev pub wait_after : ListenOptions → Duration → Duration → Duration
wait_after opts lasted backoff =
    if leb_ℤ healthy_session lasted then min_backoff_of opts else backoff

abbrev pub next_backoff : ListenOptions → Duration → Duration
next_backoff opts backoff = min_ℤ (wrap64 (backoff +ℤ backoff)) (max_backoff_of opts)

abbrev pub wrapped : Text → Text → Text
wrapped what e = what ++ (codes ": " ++ e)

module _ (env : Surroundings) where
  -- What is listened to, of a session that is open, and what it fails with.
  unfoldable pub listen_open : ListenOptions → List Event → Option Text × List Event
  listen_open opts events = elim (env.new_answer events) [
    | some e ↦ (some (wrapped (codes "create listener") e), events)
    | none ↦
        let after = listened opts.scale_set_id opts.max_runners ∷ events in
        (
          elim (env.run_answer events) [
            | some e ↦ some (wrapped (codes "session") e)
            | none ↦ none
          ],
          after,
        )
  ]

  -- `listenOnce`: a session that was opened is closed, whatever comes of it.
  unfoldable pub listen_once : ListenOptions → List Event → Option Text × List Event
  listen_once opts events =
      let asking = asked opts.scale_set_id opts.owner ∷ events in
      elim (env.open_answer events) [
        | some e ↦ (some (wrapped (codes "open session") e), asking)
        | none ↦
            let (error, after) = listen_open opts (observed_open ∷ asking) in
            (error, closed close_timeout ∷ after)
      ]

  -- How long a session took that began after some events and ended after more.
  abbrev pub time_of : List Event → List Event → Duration
  time_of events after = sub (env.now after) (env.now events)

  abbrev pub ended_event : List Event → Option Text × List Event → Event
  ended_event events (error, after) =
      observed_end (time_of events after) (get_or error (codes "session ended without an error"))

  -- The loop of `Listen`, with what has happened, newest first; `none` is out of fuel.
  unfoldable pub listen_loop : ℕ → ListenOptions → Duration → List Event → Option (List Event)
  listen_loop zero opts backoff events = none
  listen_loop (suc fuel) opts backoff events =
      let once = listen_once opts events in
      let told = ended_event events once ∷ once.1 in
      let wait = wait_after opts (time_of events once.1) backoff in
      let again = listen_loop fuel opts (next_backoff opts wait) (waited wait ∷ told) in
      if env.over once.1
      then some once.1
      else if env.wait_ends told wait
      then again
      else some (waited wait ∷ told)

  -- `Listen`
  unfoldable pub listen : ℕ → ListenOptions → Option (List Event)
  listen fuel opts = listen_loop fuel opts (min_backoff_of opts) []

-- The library's message that a job started or completed, and its statistics.
pub record JobMessage : Type 0 where
  pub job_id : Text
  pub runner_name : Text
  pub runner_id : ℤ

pub record Statistic : Type 0 where
  pub total_available_jobs : ℤ
  pub total_acquired_jobs : ℤ
  pub total_assigned_jobs : ℤ
  pub total_running_jobs : ℤ
  pub total_registered_runners : ℤ
  pub total_busy_runners : ℤ
  pub total_idle_runners : ℤ

-- What the adapter hands on of a job.
abbrev pub job_of : JobMessage → Job
job_of m = record { job_id = m.job_id; runner_name = m.runner_name; runner_id = m.runner_id }

-- What the recorder is given, if there are statistics.
unfoldable pub stats_of : Option Statistic → Option Stats
stats_of none = none
stats_of (some st) = some (record {
  available_jobs = st.total_available_jobs;
  acquired_jobs = st.total_acquired_jobs;
  assigned_jobs = st.total_assigned_jobs;
  running_jobs = st.total_running_jobs;
  registered_runners = st.total_registered_runners;
  busy_runners = st.total_busy_runners;
  idle_runners = st.total_idle_runners;
})
