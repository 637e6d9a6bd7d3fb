-- ===== src/Jobs/Queue.antt =====
-- The operations of packages/jobs/src/index.ts on `background_jobs`. Each is one statement, or one
-- transaction that locks the table first, so an operation is a function of the store and of the
-- time it reads.
use nextjs_saas_boilerplate.Common.{
  ℕ, ◌+◌, ◌*◌, String, Bool, false, ◌&&◌, List, Option, none, some, [], ◌∷◌, ◌++◌, ◌==◌, leb, ltb,
  nat_eq, if◌then◌else◌, or_else, Result, ok, err, guard, ◌>>◌, ◌>>=◌, update_where, select_where,
  find_where, sort_by, first,
}
use nextjs_saas_boilerplate.Common.Int.{ℤ, pos, leb_ℤ}
use nextjs_saas_boilerplate.Jobs.Table.{
  completed, failed, queued, running, BackgroundJob, JobStore, JobError, not_positive, duplicate_id,
  is_queued, is_running, has_id, taken,
}

unfoldable pub assert_positive_integer : ℕ → Result JobError (Unit {0})
assert_positive_integer value = guard (leb 1 value) not_positive

-- `INSERT`, which the primary key refuses for an id that is there.
unfoldable pub insert_job : BackgroundJob → JobStore → Result JobError JobStore
insert_job row s =
    if taken row.id s.jobs then err duplicate_id else ok (record s { jobs = s.jobs ++ row ∷ [] })

-- The argument of `enqueueJob`.
pub record EnqueueInput : Type 0 where
  pub available_at : Option ℕ
  pub id : Option String
  pub max_attempts : Option ℕ
  pub payload : Option String
  pub priority : Option ℤ
  pub queue : Option String
  pub tenant_id : Option String
  pub job_type : String

abbrev pub enqueued_row : EnqueueInput → String → ℕ → BackgroundJob
enqueued_row input uuid now = record {
  id = or_else input.id uuid;
  tenant_id = input.tenant_id;
  queue = or_else input.queue "default";
  job_type = input.job_type;
  payload = or_else input.payload "{}";
  status = queued;
  priority = or_else input.priority (pos 0);
  attempts = 0;
  max_attempts = or_else input.max_attempts 3;
  available_at = or_else input.available_at now;
  locked_at = none;
  locked_by = none;
  last_error = none;
  completed_at = none;
  created_at = now;
  updated_at = now;
}

-- `uuid` is what `randomUUID` returns.
unfoldable pub enqueue_job :
    EnqueueInput → String → ℕ → JobStore → Result JobError (String × JobStore)
unfolding insert_job
enqueue_job input uuid now s = do
  t ← insert_job (enqueued_row input uuid now) s
  ok (or_else input.id uuid, t)

-- `locked_at <= staleBefore`: written as a sum, since `-` stops at 0. False on NULL.
abbrev pub locked_before : Option ℕ → ℕ → ℕ → Bool
locked_before none stale_after_seconds now = false
locked_before (some t) stale_after_seconds now = leb (t + stale_after_seconds * 1000) now

-- The WHERE of both updates of `reclaimStaleJobs`, less its last line.
abbrev pub is_stale : String → ℕ → ℕ → BackgroundJob → Bool
is_stale queue now stale_after_seconds row =
    row.queue == queue
    && is_running row.status
    && locked_before row.locked_at stale_after_seconds now

abbrev pub requeue_stale : ℕ → BackgroundJob → BackgroundJob
requeue_stale now row = record row {
  status = queued;
  available_at = now;
  locked_at = none;
  locked_by = none;
  last_error = some (or_else row.last_error "Requeued after stale worker lock.");
  updated_at = now;
}

abbrev pub fail_stale : ℕ → BackgroundJob → BackgroundJob
fail_stale now row = record row {
  status = failed;
  available_at = now;
  locked_at = none;
  locked_by = none;
  last_error = some (or_else row.last_error "Failed after stale worker lock exhausted attempts.");
  updated_at = now;
}

-- The two updates, in order.
unfoldable pub reclaim_rows : ℕ → String → ℕ → List BackgroundJob → List BackgroundJob
reclaim_rows now queue stale_after_seconds rows =
    update_where
      (λ row. is_stale queue now stale_after_seconds row && leb row.max_attempts row.attempts)
      (fail_stale now)
      (update_where
        (λ row. is_stale queue now stale_after_seconds row && ltb row.attempts row.max_attempts)
        (requeue_stale now) rows)

unfoldable pub reclaim_stale_jobs : ℕ → String → ℕ → JobStore → Result JobError JobStore
unfolding assert_positive_integer
reclaim_stale_jobs now queue stale_after_seconds s = do
  assert_positive_integer stale_after_seconds
  ok (record s { jobs = reclaim_rows now queue stale_after_seconds s.jobs })

-- `ORDER BY priority DESC, available_at ASC, created_at ASC`; rows that tie keep their order.
abbrev pub claims_before : BackgroundJob → BackgroundJob → Bool
claims_before a b =
    if leb_ℤ b.priority a.priority && leb_ℤ a.priority b.priority
    then (if nat_eq a.available_at b.available_at
        then leb a.created_at b.created_at
        else leb a.available_at b.available_at)
    else leb_ℤ b.priority a.priority

-- The WHERE of the SELECT of `claimNextJob`.
abbrev pub is_claimable : String → ℕ → BackgroundJob → Bool
is_claimable queue now row = row.queue == queue && is_queued row.status && leb row.available_at now

unfoldable pub next_job : String → ℕ → List BackgroundJob → Option BackgroundJob
next_job queue now rows = first (sort_by claims_before (select_where (is_claimable queue now) rows))

abbrev pub mark_running : ℕ → String → BackgroundJob → BackgroundJob
mark_running now worker row = record row {
  status = running;
  attempts = row.attempts + 1;
  locked_at = some now;
  locked_by = some worker;
  updated_at = now;
}

-- What follows the SELECT of `claimNextJob`.
unfoldable pub take_job :
    Option BackgroundJob → ℕ → String → JobStore → Option BackgroundJob × JobStore
take_job none now worker s = (none, s)
take_job (some job) now worker s = (
  some (mark_running now worker job),
  record s { jobs = update_where (has_id job.id) (mark_running now worker) s.jobs },
)

unfoldable pub claim_next_job :
    String → String → ℕ → ℕ → JobStore → Result JobError (Option BackgroundJob × JobStore)
unfolding reclaim_stale_jobs next_job take_job
claim_next_job queue worker now stale_after_seconds s = do
  t ← reclaim_stale_jobs now queue stale_after_seconds s
  ok (take_job (next_job queue now t.jobs) now worker t)

abbrev pub mark_completed : ℕ → BackgroundJob → BackgroundJob
mark_completed now row = record row {
  status = completed;
  completed_at = some now;
  locked_at = none;
  locked_by = none;
  updated_at = now;
}

unfoldable pub complete_job : String → ℕ → JobStore → JobStore
complete_job id now s = record s { jobs = update_where (has_id id) (mark_completed now) s.jobs }

-- The values that `failJob` computes from the row it read, and its update.
abbrev pub mark_failed : BackgroundJob → String → ℕ → ℕ → BackgroundJob → BackgroundJob
mark_failed job error now retry_delay_seconds row =
    let should_retry = ltb job.attempts job.max_attempts in
    record row {
      status = if should_retry then queued else failed;
      available_at = if should_retry then now + retry_delay_seconds * 1000 else now;
      locked_at = none;
      locked_by = none;
      last_error = some error;
      updated_at = now;
    }

unfoldable pub fail_found : Option BackgroundJob → String → String → ℕ → ℕ → JobStore → JobStore
fail_found none id error now retry_delay_seconds s = s
fail_found (some job) id error now retry_delay_seconds s = record s {
  jobs = update_where (has_id id) (mark_failed job error now retry_delay_seconds) s.jobs;
}

unfoldable pub fail_job : String → String → ℕ → ℕ → JobStore → JobStore
unfolding fail_found
fail_job id error now retry_delay_seconds s =
    fail_found (find_where (has_id id) s.jobs) id error now retry_delay_seconds s
