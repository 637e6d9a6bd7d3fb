-- ===== src/Jobs/Table.antt =====
-- The rows of `background_jobs` and `cron_schedules` (packages/jobs/src/index.ts and the schema
-- of packages/db). A timestamp is its number of milliseconds since 1970. A payload is its JSON
-- text.
use nextjs_saas_boilerplate.Common.{ℕ, String, Bool, List, Option, has_key, any}
use nextjs_saas_boilerplate.Common.Int.{ℤ}

pub data JobStatus : Type 0 where
  completed failed queued running : JobStatus

pub record BackgroundJob : Type 0 where
  pub id : String
  pub tenant_id : Option String
  pub queue : String
  pub job_type : String
  pub payload : String
  pub status : JobStatus
  pub priority : ℤ
  pub attempts : ℕ
  pub max_attempts : ℕ
  pub available_at : ℕ
  pub locked_at : Option ℕ
  pub locked_by : Option String
  pub last_error : Option String
  pub completed_at : Option ℕ
  pub created_at : ℕ
  pub updated_at : ℕ

pub record CronSchedule : Type 0 where
  pub id : String
  pub tenant_id : Option String
  pub name : String
  pub job_type : String
  pub queue : String
  pub payload : String
  pub interval_seconds : ℕ
  pub enabled : Bool
  pub next_run_at : ℕ
  pub last_run_at : Option ℕ
  pub created_at : ℕ
  pub updated_at : ℕ
  pub deleted_at : Option ℕ

pub record JobStore : Type 0 where
  pub jobs : List BackgroundJob
  pub schedules : List CronSchedule

-- What the calls throw: the checks of `assertPositiveInteger`, and a primary key that is taken.
pub data JobError : Type 0 where
  not_positive duplicate_id : JobError

abbrev pub is_queued : JobStatus → Bool
is_queued queued = Bool.true
is_queued _ = Bool.false

abbrev pub is_running : JobStatus → Bool
is_running running = Bool.true
is_running _ = Bool.false

abbrev pub job_id : BackgroundJob → String
job_id row = row.id

-- `WHERE id = $1`
abbrev pub has_id : String → BackgroundJob → Bool
has_id = has_key job_id

abbrev pub taken : String → List BackgroundJob → Bool
taken id rows = any (has_id id) rows
