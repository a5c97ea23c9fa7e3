-- ===== src/Program/Scheduler.antt =====
-- `Scheduler` (backend/internal/job/scheduler.go). gocron is an argument.
pub mod Removal
mod Tests
use vocy.Prelude.{
  ℕ, Bool, true, false, Option, none, some, List, [], ◌∷◌, ◌++◌, Result, ok, err, if◌then◌else◌,
}
use vocy.Env.Schema.{Text, same}

-- A job of gocron: its ID and its name.
pub record Job : Type 0 where
  pub id : ℕ
  pub name : Text

-- The options of a job; the others are known by a number.
pub data JobOption : Type 0 where
  with_context with_event_listeners with_start_immediately : JobOption
  with_name : Text → JobOption
  extra : ℕ → JobOption

-- gocron's scheduler: its jobs, the removal of a job, and a new job.
pub record Gocron (S E : Type 0) : Type 0 where
  pub jobs : S → List Job
  pub remove : ℕ → S → S × Option E
  pub new_job : List JobOption → S → S × Option E

pub data SchedulerError (E : Type 0) : Type 0 where
  not_unqueued : Job → E → SchedulerError E
  not_registered : Text → E → SchedulerError E

-- The error of a removal in front of those of the later ones.
abbrev pub error_of :
    {E : Type 0} → Job → Option E → List (SchedulerError E) → List (SchedulerError E)
error_of j none errs = errs
error_of j (some e) errs = not_unqueued j e ∷ errs

abbrev pub start_options : Bool → List JobOption
start_options false = []
start_options true = with_start_immediately ∷ []

module _ {S E : Type 0} (g : Gocron S E) where
  -- The loop of `RemoveJob`, over the jobs that it read first.
  unfoldable pub remove_all : Text → List Job → S → S × List (SchedulerError E)
  remove_all name [] s = (s, [])
  remove_all name (j ∷ js) s =
      let (s', e) = g.remove j.id s in
      let removed = remove_all name js s' in
      let kept = remove_all name js s in
      if same j.name name then (removed.0, error_of j e removed.1) else kept

  -- `RemoveJob`; a list of errors that is not empty is joined to one.
  unfoldable pub remove_job : Text → S → S × List (SchedulerError E)
  unfolding remove_all
  remove_job name s = remove_all name (g.jobs s) s

  -- `RegisterJob`.
  unfoldable pub register_job : Text → Bool → List JobOption → S → S × Option (SchedulerError E)
  register_job name run_immediately extra_options s =
      let options =
        with_context ∷ with_name name ∷ with_event_listeners ∷ start_options run_immediately
        ++ extra_options in
      let (s', e) = g.new_job options s in
      elim e [ none ↦ (s', none) | some e' ↦ (s', some (not_registered name e')) ]
