-- ===== src/Jobs/Worker.antt =====
-- `runWorkerOnce` of packages/jobs/src/index.ts, the body of the loop of `runWorker`.
use nextjs_saas_boilerplate.Common.{ℕ, String, List, Option, none, some, Result, ok, err}
use nextjs_saas_boilerplate.Jobs.Table.{BackgroundJob, JobStore, JobError}
use nextjs_saas_boilerplate.Jobs.Queue.{claim_next_job, complete_job, fail_job}
use nextjs_saas_boilerplate.Jobs.Cron.{materialize_due_cron_jobs}

-- A handler's outcome: it returns, or throws with a message.
pub data HandlerOutcome : Type 0 where
  returned : HandlerOutcome
  threw : String → HandlerOutcome

-- The times at which `runWorkerOnce` reads the clock, in order.
pub record Readings : Type 0 where
  pub materialized_at : ℕ
  pub claimed_at : ℕ
  pub finished_at : ℕ

-- The default of `failJob`.
abbrev pub retry_delay_seconds : ℕ
retry_delay_seconds = 60

-- A handler also changes the store, as do the other workers while it runs: the store that it
-- leaves is a part of what it gives.
abbrev pub Handler : Type 0
Handler = BackgroundJob → JobStore → HandlerOutcome × JobStore

-- `handlers` is `handlers[job.type]`, and `missing` the text of the error where that is undefined.
module _ (handlers : String → Option Handler) (missing : String → String) where
  unfoldable pub settle : BackgroundJob → HandlerOutcome × JobStore → ℕ → JobStore
  settle job (returned, s) now = complete_job job.id now s
  settle job (threw message, s) now = fail_job job.id message now retry_delay_seconds s

  unfoldable pub dispatch : BackgroundJob → Option Handler → ℕ → JobStore → JobStore
  unfolding settle
  dispatch job none now s = fail_job job.id (missing job.job_type) now retry_delay_seconds s
  dispatch job (some handler) now s = settle job (handler job s) now

  unfoldable pub settle_claim :
      Option BackgroundJob × JobStore → ℕ → Option BackgroundJob × JobStore
  unfolding dispatch
  settle_claim (none, s) now = (none, s)
  settle_claim (some job, s) now = (some job, dispatch job (handlers job.job_type) now s)

  -- What follows `claimNextJob`. Where it throws, what `materializeDueCronJobs` committed stays.
  abbrev pub finish_claim :
      ℕ
      → JobStore
      → Result JobError (Option BackgroundJob × JobStore)
      → Result JobError (Option BackgroundJob) × JobStore
  finish_claim now t (err e) = (err e, t)
  finish_claim now t (ok claim) = (ok (settle_claim claim now).0, (settle_claim claim now).1)

  unfoldable pub claim_and_settle :
      String
      → String
      → ℕ
      → Readings
      → JobStore
      → Result JobError (List String × JobStore)
      → Result JobError (Option BackgroundJob) × JobStore
  unfolding settle_claim
  claim_and_settle queue worker stale_after_seconds at s (err e) = (err e, s)
  claim_and_settle queue worker stale_after_seconds at s (ok (ids, t)) =
      finish_claim at.finished_at t
        (claim_next_job queue worker at.claimed_at stale_after_seconds t)

  unfoldable pub run_worker_once :
      (ℕ → String)
      → String
      → String
      → ℕ
      → Readings
      → JobStore
      → Result JobError (Option BackgroundJob) × JobStore
  unfolding claim_and_settle
  run_worker_once uuid queue worker stale_after_seconds at s =
      claim_and_settle queue worker stale_after_seconds at s
        (materialize_due_cron_jobs uuid at.materialized_at s)
