-- ===== src/Jobs/Cron.antt =====
-- `registerCronSchedule` and `materializeDueCronJobs` of packages/jobs/src/index.ts.
use nextjs_saas_boilerplate.Common.{
  ℕ, suc, ◌+◌, ◌*◌, String, Bool, true, ◌&&◌, List, Option, none, some, [], ◌∷◌, ◌++◌, has_key, any,
  leb, if◌then◌else◌, is_none, is_some, or_else, Result, ok, ◌>>◌, ◌>>=◌, update_where,
  select_where, sort_by,
}
use nextjs_saas_boilerplate.Common.Int.{pos}
use nextjs_saas_boilerplate.Jobs.Table.{queued, BackgroundJob, CronSchedule, JobStore, JobError}
use nextjs_saas_boilerplate.Jobs.Queue.{assert_positive_integer, insert_job}

-- The argument of `registerCronSchedule`.
pub record ScheduleInput : Type 0 where
  pub enabled : Option Bool
  pub id : Option String
  pub interval_seconds : ℕ
  pub job_type : String
  pub name : String
  pub next_run_at : Option ℕ
  pub payload : Option String
  pub queue : Option String
  pub tenant_id : Option String

abbrev pub schedule_id : CronSchedule → String
schedule_id row = row.id

abbrev pub has_schedule_id : String → CronSchedule → Bool
has_schedule_id = has_key schedule_id

abbrev pub scheduled_row : ScheduleInput → String → ℕ → CronSchedule
scheduled_row input id now = record {
  id = id;
  tenant_id = input.tenant_id;
  name = input.name;
  job_type = input.job_type;
  queue = or_else input.queue "default";
  payload = or_else input.payload "{}";
  interval_seconds = input.interval_seconds;
  enabled = or_else input.enabled true;
  next_run_at = or_else input.next_run_at now;
  last_run_at = none;
  created_at = now;
  updated_at = now;
  deleted_at = none;
}

-- The SET list after `ON CONFLICT (id) DO UPDATE`; `excluded` is the refused row.
abbrev pub reschedule : Bool → CronSchedule → CronSchedule → CronSchedule
reschedule has_explicit_next_run_at excluded row = record row {
  tenant_id = excluded.tenant_id;
  name = excluded.name;
  job_type = excluded.job_type;
  queue = excluded.queue;
  payload = excluded.payload;
  interval_seconds = excluded.interval_seconds;
  enabled = excluded.enabled;
  next_run_at = if has_explicit_next_run_at then excluded.next_run_at else row.next_run_at;
  updated_at = excluded.updated_at;
}

unfoldable pub upsert_schedule : Bool → CronSchedule → List CronSchedule → List CronSchedule
upsert_schedule has_explicit_next_run_at row rows =
    if any (has_schedule_id row.id) rows
    then update_where (has_schedule_id row.id) (reschedule has_explicit_next_run_at row) rows
    else rows ++ row ∷ []

unfoldable pub register_cron_schedule :
    ScheduleInput → String → ℕ → JobStore → Result JobError (String × JobStore)
unfolding assert_positive_integer upsert_schedule
register_cron_schedule input uuid now s = do
  assert_positive_integer input.interval_seconds
  let id = or_else input.id uuid
  let row = scheduled_row input id now
  ok (id, record s { schedules = upsert_schedule (is_some input.next_run_at) row s.schedules })

-- The WHERE of the SELECT of `materializeDueCronJobs`, and its ORDER BY.
abbrev pub is_due : ℕ → CronSchedule → Bool
is_due now row = row.enabled && is_none row.deleted_at && leb row.next_run_at now

abbrev pub runs_before : CronSchedule → CronSchedule → Bool
runs_before a b = leb a.next_run_at b.next_run_at

unfoldable pub due_schedules : ℕ → List CronSchedule → List CronSchedule
due_schedules now rows = sort_by runs_before (select_where (is_due now) rows)

abbrev pub cron_job : CronSchedule → String → ℕ → BackgroundJob
cron_job schedule job_id now = record {
  id = job_id;
  tenant_id = schedule.tenant_id;
  queue = schedule.queue;
  job_type = schedule.job_type;
  payload = schedule.payload;
  status = queued;
  priority = pos 0;
  attempts = 0;
  max_attempts = 3;
  available_at = now;
  locked_at = none;
  locked_by = none;
  last_error = none;
  completed_at = none;
  created_at = now;
  updated_at = now;
}

abbrev pub mark_run : ℕ → ℕ → CronSchedule → CronSchedule
mark_run now interval_seconds row = record row {
  last_run_at = some now;
  next_run_at = now + interval_seconds * 1000;
  updated_at = now;
}

-- One round of the loop over the due schedules.
unfoldable pub fire : CronSchedule → String → ℕ → JobStore → Result JobError JobStore
unfolding insert_job
fire schedule job_id now s = do
  t ← insert_job (cron_job schedule job_id now) s
  ok (record t {
    schedules =
        update_where (has_schedule_id schedule.id) (mark_run now schedule.interval_seconds)
          t.schedules;
  })

-- The loop. `uuid k` is what the k-th call of `randomUUID` returns.
unfoldable pub fire_all :
    (ℕ → String) → ℕ → ℕ → List CronSchedule → JobStore → Result JobError (List String × JobStore)
unfolding fire
fire_all uuid k now [] s = ok ([], s)
fire_all uuid k now (schedule ∷ rest) s = do
  t ← fire schedule (uuid k) now s
  (ids, u) ← fire_all uuid (suc k) now rest t
  ok (uuid k ∷ ids, u)

unfoldable pub materialize_due_cron_jobs :
    (ℕ → String) → ℕ → JobStore → Result JobError (List String × JobStore)
unfolding fire_all due_schedules
materialize_due_cron_jobs uuid now s = fire_all uuid 0 now (due_schedules now s.schedules) s
