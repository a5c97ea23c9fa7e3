-- ===== src/Program/Bootstrap.antt =====
-- `Bootstrap` and `InitStorage` (backend/internal/bootstrap/boostrap.go), with the application lock as
-- `Lock` models it. What the other parts of the program return is an argument.
pub mod Shutdown
use vocy.Prelude.{
  ℕ, zero, suc, Bool, true, false, not, Option, none, some, List, [], ◌∷◌, ◌++◌, Result, ok, err,
  wrap, codes, if◌then◌else◌,
}
use vocy.Env.Schema.{Text, EnvConfigSchema, same}
use vocy.Storage.Reading.{FilesystemStorage, NewError}
use vocy.Lock.Value.{Codec, Kv}
use vocy.Lock.State.{AppLockService, LockError, Faults, Call}
use vocy.Lock.Acquire.{acquire}
use vocy.Lock.Renewal.{release}

pub data StorageError (E : Type 0) : Type 0 where
  unknown_backend : Text → StorageError E
  no_filesystem_storage : NewError E → StorageError E

-- `InitStorage`, with the result of `NewFilesystemStorage`.
unfoldable pub init_storage :
    {E R : Type 0}
    → EnvConfigSchema
    → Result (NewError E) (FilesystemStorage R)
    → Result (StorageError E) (FilesystemStorage R)
init_storage config filesystem =
    if same config.file_backend (codes "filesystem")
    then wrap no_filesystem_storage filesystem
    else err (unknown_backend config.file_backend)

-- The functions in `shutdownFns`: those of the observability, and the release of the lock.
pub data ShutdownFn : Type 0 where
  observability : ℕ → ShutdownFn
  release_lock : ShutdownFn

pub data BootError (E : Type 0) : Type 0 where
  no_observability no_database no_storage no_scheduler no_services no_jobs no_router
        services_failed :
      E → BootError E
  no_lock : LockError E → BootError E
  context_done : BootError E

-- What `Bootstrap` meets: the errors of its steps, the functions of the observability, how the calls
-- of the lock end, whether the context is done in the wait behind `Acquire`, and what the services
-- leave of the table and return. The lock's own renewals are among the services.
pub record World (E : Type 0) : Type 0 where
  pub observability_error : Option E
  pub observability_fns : List ShutdownFn
  pub database_error : Option E
  pub storage_error : Option E
  pub scheduler_error : Option E
  pub services_error : Option E
  pub lock_faults : Faults E
  pub now : ℕ
  pub canceled_in_wait : Bool
  pub jobs_error : Option E
  pub router_error : Option E
  pub services_run : Kv → Kv × Option E
  pub release_call : Call E

-- The steps before the lock, in their order: the first error.
abbrev pub failed :
    {E : Type 0} → (E → BootError E) → Option E → Option (BootError E) → Option (BootError E)
failed f none next = next
failed f (some e) next = some (f e)

abbrev pub before_lock : {E : Type 0} → World E → Option (BootError E)
before_lock w = failed no_observability w.observability_error (
    failed no_database w.database_error (
      failed no_storage w.storage_error
        (failed no_scheduler w.scheduler_error (failed no_services w.services_error none))))

-- Once the lock is taken: the jobs, the router, and the services.
unfoldable pub run_services : {E : Type 0} → World E → Kv → Kv × Option (BootError E)
run_services w t = elim w.jobs_error [
  | some e ↦ (t, some (no_jobs e))
  | none ↦ elim w.router_error [
    | some e ↦ (t, some (no_router e))
    | none ↦
        let (t', result) = w.services_run t in
        elim result [ some e ↦ (t', some (services_failed e)) | none ↦ (t', none) ]
  ]
]

-- The `select` behind `Acquire`, and what follows: the table, `shutdownFns` at the end, and the error.
abbrev pub after_wait :
    {E : Type 0} → Bool → World E → Kv → Kv × List ShutdownFn × Option (BootError E)
after_wait true w t = (t, w.observability_fns, some context_done)
after_wait false w t =
    let (t', e) = run_services w t in (t', w.observability_fns ++ release_lock ∷ [], e)

abbrev pub after_acquire :
    {E : Type 0}
    → World E
    → Kv × Result (LockError E) (Option ℕ)
    → Kv × List ShutdownFn × Option (BootError E)
after_acquire w (t, err e) = (t, w.observability_fns, some (no_lock e))
after_acquire w (t, ok wait) = after_wait w.canceled_in_wait w t

module _ (codec : Codec) {E : Type 0} (s : AppLockService) where
  -- The deferred function, which runs the shutdown functions and logs their errors.
  unfoldable pub shut_down : Call E → List ShutdownFn → Kv → Kv
  shut_down call [] t = t
  shut_down call (observability n ∷ fns) t = shut_down call fns t
  shut_down call (release_lock ∷ fns) t = shut_down call fns (release codec s call t).0

  -- The body of `Bootstrap`.
  unfoldable pub body : World E → Kv → Kv × List ShutdownFn × Option (BootError E)
  unfolding run_services
  body w t = elim (before_lock w) [
    | some e ↦ (t, w.observability_fns, some e)
    | none ↦ after_acquire w (acquire codec s w.lock_faults w.now false t)
  ]

  -- `Bootstrap`: the table that it leaves, and its error.
  unfoldable pub bootstrap : World E → Kv → Kv × Option (BootError E)
  unfolding body shut_down
  bootstrap w t = let (t', fns, e) = body w t in (shut_down w.release_call fns t', e)
