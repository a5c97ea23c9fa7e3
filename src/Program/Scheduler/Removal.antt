-- ===== src/Program/Scheduler/Removal.antt =====
-- What `RemoveJob` leaves (backend/internal/job/scheduler.go).
use vocy.Prelude.{
  ℕ, ◌≡◌, ◌⊎◌, inl, inr, refl, ap, ◌∙◌, false, Bool-cases, none, Option-cases, List, [], ◌∷◌, arith,
  ◌==◌, All, if◌then◌else◌,
}
use vocy.Env.Schema.{Text, same}
use vocy.Program.Scheduler.{Job, Gocron, remove_all, remove_job}

-- The jobs without those of an ID.
unfoldable pub without : ℕ → List Job → List Job
without id [] = []
without id (j ∷ js) = let rest = without id js in if j.id == id then rest else j ∷ rest

abbrev pub IsIn : Job → List Job → Type 0
IsIn k [] = ⊥
IsIn k (j ∷ js) = (k ≡ j) ⊎ IsIn k js

-- What gocron promises: a removal without an error takes out the jobs of the ID and no other.
abbrev pub Removes : {S E : Type 0} → Gocron S E → Type 0
Removes {S} g =
    (id : ℕ) (s : S) → (g.remove id s).1 ≡ none → g.jobs (g.remove id s).0 ≡ without id (g.jobs s)

-- Each job of the name is among those that are still to be seen.
abbrev pub ToSee : Text → List Job → List Job → Type 0
ToSee name js jobs = All (λ k. (same k.name name ≡ false) ⊎ IsIn k js) jobs

left_other :
    (name : Text) (j : Job) (js : List Job) (k : Job)
    → (k.id == j.id) ≡ false
    → (same k.name name ≡ false) ⊎ IsIn k (j ∷ js)
    → (same k.name name ≡ false) ⊎ IsIn k js
left_other name j js k other (inl unnamed) = inl unnamed
left_other name j js k other (inr (inl head)) = absurd (ground (arith, other, ap (λ l. l.id) head))
left_other name j js k other (inr (inr behind)) = inr behind

left_unnamed :
    (name : Text) (j : Job) (js jobs : List Job)
    → same j.name name ≡ false
    → ToSee name (j ∷ js) jobs
    → ToSee name js jobs
left_unnamed name j js [] unnamed h = tt
left_unnamed name j js (k ∷ jobs) unnamed (inl other, hs) =
    (inl other, left_unnamed name j js jobs unnamed hs)
left_unnamed name j js (k ∷ jobs) unnamed (inr (inl head), hs) =
    (inl (ap (λ l. same l.name name) head ∙ unnamed), left_unnamed name j js jobs unnamed hs)
left_unnamed name j js (k ∷ jobs) unnamed (inr (inr behind), hs) =
    (inr behind, left_unnamed name j js jobs unnamed hs)

left_removed :
    (name : Text) (j : Job) (js jobs : List Job)
    → ToSee name (j ∷ js) jobs
    → ToSee name js (without j.id jobs)
unfolding without
left_removed name j js [] h = tt
left_removed name j js (k ∷ jobs) (h, hs) = elim (Bool-cases (k.id == j.id)) [
  | inl same_id ↦ rw same_id (left_removed name j js jobs hs)
  | inr other ↦ rw other (left_other name j js k other h, left_removed name j js jobs hs)
]

left_more :
    (name : Text) (j : Job) (js jobs : List Job) → ToSee name js jobs → ToSee name (j ∷ js) jobs
left_more name j js [] h = tt
left_more name j js (k ∷ jobs) (inl other, hs) = (inl other, left_more name j js jobs hs)
left_more name j js (k ∷ jobs) (inr behind, hs) = (inr (inr behind), left_more name j js jobs hs)

left_all : (name : Text) (js : List Job) → ToSee name js js
left_all name [] = tt
left_all name (j ∷ js) = (inr (inl refl), left_more name j js js (left_all name js))

seen :
    (name : Text) (jobs : List Job) → ToSee name [] jobs → All (λ k. same k.name name ≡ false) jobs
seen name [] h = tt
seen name (k ∷ jobs) (inl other, hs) = (other, seen name jobs hs)
seen name (k ∷ jobs) (inr nowhere, hs) = absurd nowhere

module _ {S E : Type 0} (g : Gocron S E) (removes : Removes g) where
  remove_all_removes :
      (name : Text) (js : List Job) (s : S)
      → (remove_all g name js s).1 ≡ []
      → ToSee name js (g.jobs s)
      → All (λ k. same k.name name ≡ false) (g.jobs (remove_all g name js s).0)
  unfolding remove_all
  remove_all_removes name [] s h to_see = seen name (g.jobs s) to_see
  remove_all_removes name (j ∷ js) s h to_see = elim (Bool-cases (same j.name name)) [
    | inr other ↦
        rw (remove_all, other)
          (remove_all_removes name js s (rw (remove_all, other) at h)
            (left_unnamed name j js (g.jobs s) other to_see))
    | inl named ↦ elim (Option-cases (g.remove j.id s).1) [
      | inr (e, failed) ↦ absurd (ground (arith, rw (remove_all, named, failed) at h))
      | inl done ↦
          rw (remove_all, named)
            (remove_all_removes name js (g.remove j.id s).0 (rw (remove_all, named, done) at h)
              (rw (removes j.id s done) (left_removed name j js (g.jobs s) to_see)))
    ]
  ]

  -- Where `RemoveJob` returns no error, no job of that name is left, whatever the number of its jobs.
  -- This supposes that a removal of gocron that returns no error takes out the jobs of the ID and no
  -- other.
  pub remove_job_removes :
      (name : Text) (s : S)
      → (remove_job g name s).1 ≡ []
      → All (λ k. same k.name name ≡ false) (g.jobs (remove_job g name s).0)
  unfolding remove_job
  remove_job_removes name s h = remove_all_removes name (g.jobs s) s h (left_all name (g.jobs s))
