-- ===== src/Jobs/Settling.antt =====
-- How `runWorkerOnce` leaves the job that it ran.
use nextjs_saas_boilerplate.Common.{
  ℕ, ◌≡◌, refl, String, ltb, Option, none, some, find_where, if◌then◌else◌, find_where-update_self,
}
use nextjs_saas_boilerplate.Jobs.Table.{
  BackgroundJob, JobStore, JobStatus, completed, failed, queued, has_id, job_id,
}
use nextjs_saas_boilerplate.Jobs.Queue.{
  complete_job, fail_job, fail_found, mark_completed, mark_failed,
}
use nextjs_saas_boilerplate.Jobs.Worker.{
  HandlerOutcome, returned, threw, Handler, retry_delay_seconds, settle, dispatch,
}

-- The row that a settled job has, given the row that was there.
abbrev pub after_outcome : Option HandlerOutcome → String → ℕ → BackgroundJob → BackgroundJob
after_outcome (some returned) missing now r = mark_completed now r
after_outcome (some (threw message)) missing now r = mark_failed r message now retry_delay_seconds r
after_outcome none missing now r = mark_failed r missing now retry_delay_seconds r

-- The status after an outcome: done, to be tried again, or out of attempts.
abbrev pub status_after : Option HandlerOutcome → BackgroundJob → JobStatus
status_after (some returned) r = completed
status_after _ r = if ltb r.attempts r.max_attempts then queued else failed

fail_job-found :
    (id error : String) (now : ℕ) (s : JobStore) {r : BackgroundJob}
    → find_where (has_id id) s.jobs ≡ some r
    → find_where (has_id id) (fail_job id error now retry_delay_seconds s).jobs
      ≡ some (mark_failed r error now retry_delay_seconds r)
unfolding fail_job fail_found
fail_job-found id error now s {r} e = rw e (
    find_where-update_self job_id (mark_failed r error now retry_delay_seconds) (λ x. refl) id
      s.jobs e)

complete_job-found :
    (id : String) (now : ℕ) (s : JobStore) {r : BackgroundJob}
    → find_where (has_id id) s.jobs ≡ some r
    → find_where (has_id id) (complete_job id now s).jobs ≡ some (mark_completed now r)
unfolding complete_job
complete_job-found id now s e =
    find_where-update_self job_id (mark_completed now) (λ x. refl) id s.jobs e

-- What a handler gave, if one is registered, and the store that it left.
abbrev pub outcome : Option Handler → BackgroundJob → JobStore → Option HandlerOutcome × JobStore
outcome none job s = (none, s)
outcome (some handler) job s = (some (handler job s).0, (handler job s).1)

module _ (handlers : String → Option Handler) (missing : String → String) where
  settle-found :
      (job : BackgroundJob) (o : HandlerOutcome) (now : ℕ) (s : JobStore) {r : BackgroundJob}
      → find_where (has_id job.id) s.jobs ≡ some r
      → find_where (has_id job.id) (settle handlers missing job (o, s) now).jobs
        ≡ some (after_outcome (some o) (missing job.job_type) now r)
  unfolding settle
  settle-found job returned now s e = complete_job-found job.id now s e
  settle-found job (threw message) now s e = fail_job-found job.id message now s e

  dispatch-found :
      (job : BackgroundJob) (handler : Option Handler) (now : ℕ) (s : JobStore) {r : BackgroundJob}
      → find_where (has_id job.id) (outcome handler job s).1.jobs ≡ some r
      → find_where (has_id job.id) (dispatch handlers missing job handler now s).jobs
        ≡ some (after_outcome (outcome handler job s).0 (missing job.job_type) now r)
  unfolding dispatch
  dispatch-found job none now s e = fail_job-found job.id (missing job.job_type) now s e
  dispatch-found job (some handler) now s e =
      settle-found job (handler job s).0 now (handler job s).1 e

-- A job whose row the handler left in the table is never left running: whatever the handler does,
-- and also without one, its row ends with the status of the outcome, no lock and the same attempts.
pub dispatch-settled :
    (handlers : String → Option Handler) (missing : String → String) (job : BackgroundJob) (now : ℕ)
    (s : JobStore) {r : BackgroundJob}
    → find_where (has_id job.id) (outcome (handlers job.job_type) job s).1.jobs ≡ some r
    → (k : BackgroundJob) × (find_where
          (has_id job.id)
          (dispatch handlers missing job (handlers job.job_type) now s).jobs
        ≡ some k)
      × (k.status ≡ status_after (outcome (handlers job.job_type) job s).0 r)
      × (k.locked_at ≡ none)
      × (k.attempts ≡ r.attempts)
dispatch-settled handlers missing job now s {r} e = (
  after_outcome (outcome (handlers job.job_type) job s).0 (missing job.job_type) now r,
  dispatch-found handlers missing job (handlers job.job_type) now s e,
  settled_status (outcome (handlers job.job_type) job s).0,
  settled_lock (outcome (handlers job.job_type) job s).0,
  settled_attempts (outcome (handlers job.job_type) job s).0,
)
  where
    settled_status :
        (o : Option HandlerOutcome)
        → (after_outcome o (missing job.job_type) now r).status ≡ status_after o r
    settled_status none = refl
    settled_status (some returned) = refl
    settled_status (some (threw m)) = refl

    settled_lock :
        (o : Option HandlerOutcome)
        → (after_outcome o (missing job.job_type) now r).locked_at ≡ none
    settled_lock none = refl
    settled_lock (some returned) = refl
    settled_lock (some (threw m)) = refl

    settled_attempts :
        (o : Option HandlerOutcome)
        → (after_outcome o (missing job.job_type) now r).attempts ≡ r.attempts
    settled_attempts none = refl
    settled_attempts (some returned) = refl
    settled_attempts (some (threw m)) = refl
