-- ===== src/Proxmox/Tasks/Ends.antt =====
-- internal/proxmox/tasks.go: `runTask` ends once the task does, and tells how.
use proxmox_actions_runners.Prelude.{
  ℕ, zero, suc, ◌+◌, ◌≤◌, ◌≤ℤ◌, ◌==◌, text_eq, text_beq_iff, true, false, ◌||◌, List, [], ◌∷◌, Text,
  Option, none, some, is_some, codes, is_empty, has_prefix, ◌≡◌, refl, inl, inr, Bool-cases, arith,
}
use proxmox_actions_runners.Prelude.Results.{Result, ok, err}
use proxmox_actions_runners.Prelude.Time.{Duration}
use proxmox_actions_runners.Proxmox.Errors.{PveError, task}
use proxmox_actions_runners.Proxmox.Tasks.{
  TaskStatus, Event, got_status, waited, Api, next_interval, poll_loop, poll, verdict, task_check,
  poll_interval, max_poll_interval, wait_task, run_task, task_ok, task_warnings,
}

unfoldable pub event_count : List Event → ℕ
event_count [] = zero
event_count (e ∷ es) = suc (event_count es)

abbrev pub Succeeded : Text → Type 0
Succeeded x = (x == task_ok || has_prefix x task_warnings) ≡ true

-- What is reported fits the last answer of the API.
abbrev pub Fits : Result PveError TaskStatus → Option PveError → Type 0
Fits (err e) r = r ≡ some e
Fits (ok st) none = (st.status ≡ codes "stopped") × Succeeded st.exit_status
Fits (ok st) (some e) =
    (st.status ≡ codes "stopped")
    × ((e ≡ task st.exit_status)
        × ((st.exit_status == task_ok || has_prefix st.exit_status task_warnings) ≡ false))

abbrev pub ShortWaits : Duration → List Event → Type 0
ShortWaits m [] = Unit
ShortWaits m (got_status upid ∷ es) = ShortWaits m es
ShortWaits m (waited d ∷ es) = (d ≤ℤ m) × ShortWaits m es

-- From some number of events on, the API says that the task has stopped, or fails; and no wait
-- is cut short.
pub record Stops (api : Api) (upid : Text) (n : ℕ) : Type 0 where
  pub stopped :
      (es : List Event) (st : TaskStatus)
      → n ≤ event_count es
      → api.status_answer es upid ≡ ok st
      → st.status ≡ codes "stopped"
  pub waits : (es : List Event) (d : Duration) → api.wait_ends es d ≡ true

next_interval-le : (api : Api) (d : Duration) → next_interval api d ≤ℤ max_poll_interval api
next_interval-le api d = ground arith

first_le : (api : Api) → poll_interval api ≤ℤ max_poll_interval api
first_le api = ground arith

verdict-Fits :
    (r : Result PveError TaskStatus)
    → ((verdict r).0 || is_some (verdict r).1) ≡ true
    → Fits r (verdict r).1
unfolding verdict
verdict-Fits (err e) h = refl
verdict-Fits (ok st) h = elim (Bool-cases (st.status == codes "stopped")) [
  | inl s ↦
      let is_stopped = (text_beq_iff st.status (codes "stopped")).0 s in
      elim (Bool-cases (st.exit_status == task_ok || has_prefix st.exit_status task_warnings)) [
        | inl b ↦ rw (s, b) (is_stopped, b)
        | inr b ↦ rw (s, b) (is_stopped, (refl, b))
      ]
  | inr s ↦ let going : verdict (ok st) ≡ (false, none) = rw s refl in absurd (cc (going, h))
]

-- A task that has stopped ends the loop.
verdict-ends :
    (r : Result PveError TaskStatus)
    → ((st : TaskStatus) → r ≡ ok st → st.status ≡ codes "stopped")
    → ((verdict r).0 || is_some (verdict r).1) ≡ true
unfolding verdict
verdict-ends (err e) h = refl
verdict-ends (ok st) h =
    let s = (text_beq_iff st.status (codes "stopped")).1 (h st refl) in
    elim (Bool-cases (st.exit_status == task_ok || has_prefix st.exit_status task_warnings)) [
      | inl b ↦ rw (s, b) refl
      | inr b ↦ rw (s, b) refl
    ]

-- How a loop ended: by the answer to a last question.
abbrev pub Ended : Api → Text → Option (Option PveError × List Event) → Type 0
Ended api upid out =
    (r : Option PveError) × ((es : List Event) × ((out ≡ some (r, got_status upid ∷ es))
        × (Fits (api.status_answer es upid) r × ShortWaits (max_poll_interval api) es)))

module _ (api : Api) (upid : Text) (n : ℕ) (stops : Stops api upid n) where
  asked_last :
      (fuel : ℕ) (d : Duration) (es : List Event)
      → ((verdict (api.status_answer es upid)).0 || is_some (verdict (api.status_answer es upid)).1)
        ≡ true
      → ShortWaits (max_poll_interval api) es
      → Ended api upid (poll_loop api (task_check api upid) (suc fuel) d es)
  unfolding poll_loop task_check
  asked_last fuel d es h w = (
    (verdict (api.status_answer es upid)).1,
    (es, (rw (poll_loop, h) refl, (verdict-Fits (api.status_answer es upid) h, w))),
  )

  poll_loop-Ended :
      (fuel : ℕ) (d : Duration) (es : List Event)
      → n ≤ event_count es + fuel
      → d ≤ℤ max_poll_interval api
      → ShortWaits (max_poll_interval api) es
      → Ended api upid (poll_loop api (task_check api upid) (suc fuel) d es)
  unfolding poll_loop task_check event_count
  poll_loop-Ended zero d es h k w =
      asked_last zero d es
        (verdict-ends (api.status_answer es upid) (λ st. stops.stopped es st (omega arith))) w
  poll_loop-Ended (suc fuel) d es h k w =
      elim (Bool-cases (
        (verdict (api.status_answer es upid)).0
        || is_some (verdict (api.status_answer es upid)).1)) [
          | inl b ↦ asked_last (suc fuel) d es b w
          | inr b ↦
              let (r, (fs, (q, fit))) =
                poll_loop-Ended fuel (next_interval api d) (waited d ∷ got_status upid ∷ es)
                  (omega arith) (next_interval-le api d) (k, w) in
              (r, (fs, (rw (poll_loop, b, stops.waits (got_status upid ∷ es) d) q, fit)))
        ]

  -- For every API, task ID and n such that the API says that the task has stopped, or fails, once n
  -- events have happened, and no wait is cut short: after a request that answers this task's ID, which is not empty,
  -- runTask with fuel n + 1 ends by asking for the task's status a last time. Its result
  -- fits that last answer: no error exactly for a stopped task whose exit status is OK or
  -- starts with WARNINGS, the TaskError with the exit status for any other stopped task, and the
  -- API's error when it failed. No wait was longer than the client's longest interval.
  pub run_task-Ended : (is_empty upid ≡ false) → Ended api upid (run_task api (ok upid) (suc n) [])
  unfolding run_task wait_task poll event_count
  run_task-Ended h = rw h (poll_loop-Ended n (poll_interval api) [] (omega arith) (first_le api) tt)
