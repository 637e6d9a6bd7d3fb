-- ===== src/Jobs/Runs.antt =====
-- Any interleaving of the transactions of packages/jobs/src/index.ts, by any number of callers and
-- workers: the table locks make each one a step of its own.
use nextjs_saas_boilerplate.Common.{
  ℕ, suc, ◌+◌, ◌<◌, ◌≡◌, refl, String, List, [], ◌∷◌, Option, some, arith, ok, err, Result,
  if◌then◌else◌, ap, subst, All, or_else, ◌==◌, Distinct, ok-injective, >>=-eq-ok,
}
use nextjs_saas_boilerplate.Jobs.Table.{BackgroundJob, JobStore, JobError, job_id, CronSchedule}
use nextjs_saas_boilerplate.Jobs.Queue.{
  EnqueueInput, enqueued_row, enqueue_job, insert_job, assert_positive_integer, claim_next_job,
  complete_job, fail_job,
}
use nextjs_saas_boilerplate.Jobs.Cron.{
  ScheduleInput, register_cron_schedule, materialize_due_cron_jobs, fire_all, fire, cron_job,
  due_schedules,
}
use nextjs_saas_boilerplate.Jobs.Invariant.{
  IsValidJob, IsValid, insert_job-IsValid, claim_next_job-IsValid, fail_job-IsValid,
  complete_job-IsValid,
}

pub data Command : Type 0 where
  enqueue : EnqueueInput → (uuid : String) → (now : ℕ) → Command
  register : ScheduleInput → (uuid : String) → (now : ℕ) → Command
  materialize : (uuid : ℕ → String) → (now : ℕ) → Command
  claim : (queue worker : String) → (now stale : ℕ) → Command
  complete : (id : String) → (now : ℕ) → Command
  fail : (id error : String) → (now delay : ℕ) → Command

-- The store after a call: one that throws is rolled back.
abbrev pub settled {ℓ} : {A : Type ℓ} → (A → JobStore) → Result JobError A → JobStore → JobStore
settled f (ok a) s = f a
settled f (err e) s = s

unfoldable pub exec : Command → JobStore → JobStore
exec (enqueue input uuid now) s = settled (λ r. r.1) (enqueue_job input uuid now s) s
exec (register input uuid now) s = settled (λ r. r.1) (register_cron_schedule input uuid now s) s
exec (materialize uuid now) s = settled (λ r. r.1) (materialize_due_cron_jobs uuid now s) s
exec (claim queue worker now stale) s =
    settled (λ r. r.1) (claim_next_job queue worker now stale s) s
exec (complete id now) s = complete_job id now s
exec (fail id error now delay) s = fail_job id error now delay s

unfoldable pub exec_all : List Command → JobStore → JobStore
exec_all [] s = s
exec_all (c ∷ cs) s = exec_all cs (exec c s)

-- 1 if the call hands out the job `id`, and 0 otherwise.
abbrev pub handed_out : String → Result JobError (Option BackgroundJob × JobStore) → ℕ
handed_out id (ok (some j, t)) = if j.id == id then 1 else 0
handed_out id _ = 0

unfoldable pub claims : String → Command → JobStore → ℕ
claims id (claim queue worker now stale) s = handed_out id (claim_next_job queue worker now stale s)
claims id _ s = 0

-- How often the job `id` is handed out along the calls.
unfoldable pub claims_along : String → List Command → JobStore → ℕ
unfolding claims exec
claims_along id [] s = 0
claims_along id (c ∷ cs) s = claims id c s + claims_along id cs (exec c s)

-- `enqueueJob` does not check `maxAttempts`: a caller gives 1 or more.
abbrev pub IsSound : Command → Type 0
IsSound (enqueue input uuid now) = 0 < or_else input.max_attempts 3
IsSound _ = Unit

enqueued_row-IsValidJob :
    (input : EnqueueInput) (uuid : String) (now : ℕ)
    → 0 < or_else input.max_attempts 3
    → IsValidJob (enqueued_row input uuid now)
enqueued_row-IsValidJob input uuid now h = ground arith

cron_job-IsValidJob : (d : CronSchedule) (id : String) (now : ℕ) → IsValidJob (cron_job d id now)
cron_job-IsValidJob d id now = ground arith

fire_all-IsValid :
    (uuid : ℕ → String) (k now : ℕ) (due : List CronSchedule) (s : JobStore)
    {r : List String × JobStore}
    → fire_all uuid k now due s ≡ ok r
    → IsValid s
    → IsValid r.1
unfolding fire_all fire
fire_all-IsValid uuid k now [] s e v =
    subst (λ (x : List String × JobStore). IsValid x.1) (ok-injective e) v
fire_all-IsValid uuid k now (d ∷ due) s e v =
    let (u, fired, rest) = >>=-eq-ok (fire d (uuid k) now s) _ e in
    let (w, made, upd) = >>=-eq-ok (insert_job (cron_job d (uuid k) now) s) _ fired in
    let (r', later, last) = >>=-eq-ok (fire_all uuid (suc k) now due u) _ rest in
    let wv =
      insert_job-IsValid (cron_job d (uuid k) now) s made (cron_job-IsValidJob d (uuid k) now) v in
    let uv : IsValid u =
      subst IsValid (ok-injective upd) (record { rows = wv.rows; keys = wv.keys }) in
    subst (λ (x : List String × JobStore). IsValid x.1) (ok-injective last)
      (fire_all-IsValid uuid (suc k) now due u later uv)

settled-IsValid :
    {A : Type 0} (f : A → JobStore) (r : Result JobError A) (s : JobStore)
    → IsValid s
    → ((a : A) → r ≡ ok a → IsValid (f a))
    → IsValid (settled f r s)
settled-IsValid f (ok a) s v h = h a refl
settled-IsValid f (err e) s v h = v

enqueue_job-IsValid :
    (input : EnqueueInput) (uuid : String) (now : ℕ) (s : JobStore) {r : String × JobStore}
    → 0 < or_else input.max_attempts 3
    → enqueue_job input uuid now s ≡ ok r
    → IsValid s
    → IsValid r.1
unfolding enqueue_job
enqueue_job-IsValid input uuid now s h e v =
    let (t, made, last) = >>=-eq-ok (insert_job (enqueued_row input uuid now) s) _ e in
    subst (λ (x : String × JobStore). IsValid x.1) (ok-injective last)
      (insert_job-IsValid (enqueued_row input uuid now) s made
        (enqueued_row-IsValidJob input uuid now h) v)

pub register-jobs :
    (input : ScheduleInput) (uuid : String) (now : ℕ) (s : JobStore) {r : String × JobStore}
    → register_cron_schedule input uuid now s ≡ ok r
    → s.jobs ≡ r.1.jobs
unfolding register_cron_schedule
register-jobs input uuid now s e =
    let (u, _, last) = >>=-eq-ok (assert_positive_integer input.interval_seconds) _ e in
    ap (λ (x : String × JobStore). x.1.jobs) (ok-injective last)

register-IsValid :
    (input : ScheduleInput) (uuid : String) (now : ℕ) (s : JobStore) {r : String × JobStore}
    → register_cron_schedule input uuid now s ≡ ok r
    → IsValid s
    → IsValid r.1
register-IsValid input uuid now s e v =
    let same = register-jobs input uuid now s e in
    record { rows = subst (All IsValidJob) same v.rows; keys = subst (Distinct job_id) same v.keys }

materialize-IsValid :
    (uuid : ℕ → String) (now : ℕ) (s : JobStore) {r : List String × JobStore}
    → materialize_due_cron_jobs uuid now s ≡ ok r
    → IsValid s
    → IsValid r.1
unfolding materialize_due_cron_jobs
materialize-IsValid uuid now s e v =
    fire_all-IsValid uuid 0 now (due_schedules now s.schedules) s e v

-- Every call keeps the store well formed.
pub exec-IsValid : (c : Command) (s : JobStore) → IsSound c → IsValid s → IsValid (exec c s)
unfolding exec
exec-IsValid (enqueue input uuid now) s h v =
    settled-IsValid (λ r. r.1) (enqueue_job input uuid now s) s v
      λ r e. enqueue_job-IsValid input uuid now s h e v
exec-IsValid (register input uuid now) s h v =
    settled-IsValid (λ r. r.1) (register_cron_schedule input uuid now s) s v
      λ r e. register-IsValid input uuid now s e v
exec-IsValid (materialize uuid now) s h v =
    settled-IsValid (λ r. r.1) (materialize_due_cron_jobs uuid now s) s v
      λ r e. materialize-IsValid uuid now s e v
exec-IsValid (claim queue worker now stale) s h v =
    settled-IsValid (λ r. r.1) (claim_next_job queue worker now stale s) s v
      λ r e. claim_next_job-IsValid queue worker now stale s e v
exec-IsValid (complete id now) s h v = complete_job-IsValid id now s v
exec-IsValid (fail id error now delay) s h v = fail_job-IsValid id error now delay s v

-- Any calls, whose enqueued jobs have an attempt, leave a well-formed store well formed: ids stay
-- distinct, a queued row has an attempt left, and exactly the running rows are locked.
pub exec_all-IsValid :
    (cs : List Command) (s : JobStore) → All IsSound cs → IsValid s → IsValid (exec_all cs s)
unfolding exec_all
exec_all-IsValid [] s h v = v
exec_all-IsValid (c ∷ cs) s (h, hs) v = exec_all-IsValid cs (exec c s) hs (exec-IsValid c s h v)
