-- ===== src/Controller/ScaleSet/Jobs.antt =====
-- internal/controller/scaleset.go: which runners the controller knows to be in a job, over any
-- history of messages and other events.
use proxmox_actions_runners.Prelude.{
  ℤ, ◌≡◌, refl, ◌∙◌, ap, ◌==◌, text_eq, Bool, true, false, List, [], ◌∷◌, Text, Option, none, some,
  get_or, lookup, if◌then◌else◌,
}
use proxmox_actions_runners.Prelude.Maps.{lookup-insert, lookup-delete}
use proxmox_actions_runners.Prelude.Time.{Time}
use proxmox_actions_runners.Controller.ScaleSet.{
  ScaleSetState, Stats, session_opened, session_ended, record_stats, desired_runners, job_started,
  job_completed, has_job, mark_running, forget, back_off,
}

-- All that happens to a scale set's state after its start.
pub data Event : Type 0 where
  opened : Time → Event
  ended : Time → Text → Event
  counted : Stats → Event
  desires : ℤ → Event
  started : Text → Event
  completed : Text → Event
  refused_removal : Text → Event
  gone : Text → Event
  failed_creation : Time → Event

pub handle : Event → ScaleSetState → ScaleSetState
handle (opened t) s = session_opened t s
handle (ended t e) s = session_ended t e s
handle (counted st) s = record_stats st s
handle (desires n) s = (desired_runners n s).0
handle (started r) s = job_started r s
handle (completed r) s = (job_completed r s).0
handle (refused_removal r) s = mark_running r s
handle (gone r) s = forget r s
handle (failed_creation t) s = back_off t s

pub run : List Event → ScaleSetState → ScaleSetState
run [] s = s
run (e ∷ es) s = run es (handle e s)

-- Whether a runner is in a job, by the last event that is about it.
abbrev pub told : Text → Event → Bool → Bool
told r (started q) b = if q == r then true else b
told r (refused_removal q) b = if q == r then true else b
told r (completed q) b = if q == r then false else b
told r (gone q) b = if q == r then false else b
told r _ b = b

abbrev pub told_all : Text → List Event → Bool → Bool
told_all r [] b = b
told_all r (e ∷ es) b = told_all r es (told r e b)

get_or-if :
    (b v : Bool) (o : Option Bool)
    → get_or (if b then some v else o) false ≡ (if b then v else get_or o false)
get_or-if true v o = refl
get_or-if false v o = refl

get_or-if_none :
    (b : Bool) (o : Option Bool)
    → get_or (if b then none else o) false ≡ (if b then false else get_or o false)
get_or-if_none true o = refl
get_or-if_none false o = refl

has_job-handle :
    (r : Text) (e : Event) (s : ScaleSetState) → has_job (handle e s) r ≡ told r e (has_job s r)
unfolding handle has_job job_started job_completed mark_running forget
has_job-handle r (started q) s =
    rw (lookup-insert q r true s.busy) (get_or-if (q == r) true (lookup r s.busy))
has_job-handle r (refused_removal q) s =
    rw (lookup-insert q r true s.busy) (get_or-if (q == r) true (lookup r s.busy))
has_job-handle r (completed q) s =
    rw (lookup-delete q r s.busy) (get_or-if_none (q == r) (lookup r s.busy))
has_job-handle r (gone q) s =
    rw (lookup-delete q r s.busy) (get_or-if_none (q == r) (lookup r s.busy))
has_job-handle r (opened t) s = unfold session_opened in refl
has_job-handle r (ended t e) s = unfold session_ended in refl
has_job-handle r (counted st) s = unfold record_stats in refl
has_job-handle r (desires n) s = unfold desired_runners in refl
has_job-handle r (failed_creation t) s = unfold back_off in refl

-- After any events, the controller takes a runner to be in a job exactly if the last event about
-- that runner was a job's start or GitHub's refusal to remove it, or if there was no such event
-- and it did so before.
pub has_job-run :
    (r : Text) (es : List Event) (s : ScaleSetState)
    → has_job (run es s) r ≡ told_all r es (has_job s r)
unfolding run
has_job-run r [] s = refl
has_job-run r (e ∷ es) s = has_job-run r es (handle e s) ∙ ap (told_all r es) (has_job-handle r e s)
