-- ===== src/Program/Scheduler/Tests.antt =====
-- Tests and witnesses on the scheduler (backend/internal/job/scheduler.go).
use vocy.Prelude.{ℕ, ◌≡◌, refl, true, false, Option, none, some, List, [], ◌∷◌, All, codes}
use vocy.Env.Schema.{Text, same}
use vocy.Program.Scheduler.{Job, JobOption, Gocron, SchedulerError, remove_job, register_job}
use vocy.Program.Scheduler.Removal.{without, Removes, remove_job_removes}

-- A scheduler that is its jobs.
abbrev take_out : ℕ → List Job → List Job × Option Text
take_out id jobs = (without id jobs, none)

abbrev refuse : List JobOption → List Job → List Job × Option Text
refuse options jobs = (jobs, some (codes "full"))

abbrev gocron : Gocron (List Job) Text
gocron = record { jobs = λ jobs. jobs; remove = take_out; new_job = refuse }

abbrev nightly : List Job
nightly =
    record { id = 1; name = codes "clean" }
    ∷ record { id = 2; name = codes "sync" }
    ∷ record { id = 3; name = codes "clean" }
    ∷ []

take_out-Removes : Removes gocron
take_out-Removes id s done = refl

clean_removed :
    remove_job gocron (codes "clean") nightly ≡ (record { id = 2; name = codes "sync" } ∷ [], [])
unfolding remove_job same without
clean_removed = refl

clean_no_errors : (remove_job gocron (codes "clean") nightly).1 ≡ []
unfolding remove_job same
clean_no_errors = refl

remove_job_removes_example :
    All
      (λ k. same k.name (codes "clean") ≡ false)
      (gocron.jobs (remove_job gocron (codes "clean") nightly).0)
remove_job_removes_example =
    remove_job_removes gocron take_out-Removes (codes "clean") nightly clean_no_errors

register_fails :
    (register_job gocron (codes "clean") true [] nightly).1
    ≡ some (SchedulerError.not_registered (codes "clean") (codes "full"))
unfolding register_job
register_fails = refl
