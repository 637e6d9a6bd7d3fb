-- ===== src/Jobs/Tests.antt =====
-- The theorems on packages/jobs/src/index.ts at concrete queues.
use nextjs_saas_boilerplate.Common.{
  ℕ, ◌+◌, ◌≤◌, ◌≡◌, ◌≢◌, refl, String, false, sort_by, select_where, update_where, List, [], ◌∷◌,
  ◌++◌, map, Option, none, some, ok, arith, All, length, find_where, count_where,
}
use nextjs_saas_boilerplate.Common.Int.{pos}
use nextjs_saas_boilerplate.Jobs.Table.{BackgroundJob, CronSchedule, JobStore, has_id}
use nextjs_saas_boilerplate.Jobs.Queue.{
  EnqueueInput, enqueued_row, claim_next_job, reclaim_rows, mark_running, is_stale,
}
use nextjs_saas_boilerplate.Jobs.Cron.{
  scheduled_row, materialize_due_cron_jobs, is_due, due_schedules, cron_job, mark_run, fire_all,
}
use nextjs_saas_boilerplate.Jobs.Worker.{Handler, threw, dispatch}
use nextjs_saas_boilerplate.Jobs.Invariant.{IsValid}
use nextjs_saas_boilerplate.Jobs.Reclaim.{reclaimed, reclaim_rows-not_stale, reclaim_rows-eq-map}
use nextjs_saas_boilerplate.Jobs.Claims.{Claimed, claim_next_job_lem}
use nextjs_saas_boilerplate.Jobs.Exclusion.{claim_next_job_exclusive}
use nextjs_saas_boilerplate.Jobs.Firing.{fired_jobs, advance}
use nextjs_saas_boilerplate.Jobs.Materializing.{
  materialize_due_cron_jobs_lem, materialize_due_cron_jobs_once,
}
use nextjs_saas_boilerplate.Jobs.Runs.{
  Command, claim, fail, exec_all, claims_along, exec_all-IsValid,
}
use nextjs_saas_boilerplate.Jobs.Attempts.{claims_along-bounded}
use nextjs_saas_boilerplate.Jobs.Settling.{dispatch-settled, status_after, outcome}

abbrev email_job : EnqueueInput
email_job = record {
  available_at = none;
  id = none;
  max_attempts = none;
  payload = none;
  priority = none;
  queue = none;
  tenant_id = some "acme";
  job_type = "email.send";
}

abbrev job_a : BackgroundJob
job_a = enqueued_row email_job "a" 1000

abbrev job_b : BackgroundJob
job_b = enqueued_row (record email_job { priority = some (pos 5) }) "b" 2000

abbrev hourly : CronSchedule
hourly =
    scheduled_row
      (record {
        enabled = none;
        id = none;
        interval_seconds = 3600;
        job_type = "storage.cleanup";
        name = "cleanup";
        next_run_at = none;
        payload = none;
        queue = none;
        tenant_id = none;
      })
      "hourly" 3000

abbrev two_jobs : JobStore
two_jobs = record { jobs = job_a ∷ job_b ∷ []; schedules = hourly ∷ [] }

two_jobs-IsValid : IsValid two_jobs
two_jobs-IsValid = record { rows = (ground arith, (ground arith, tt)); keys = (refl, (refl, tt)) }

-- Two claims of the job `a`, the second after a failure.
abbrev calls : List Command
calls =
    claim "default" "w1" 4000 60
    ∷ claim "default" "w2" 5000 60
    ∷ fail "a" "boom" 6000 60
    ∷ claim "default" "w1" 70000 60
    ∷ []

claims_along-bounded_example : 0 + claims_along "a" calls two_jobs ≤ 3
unfolding find_where
claims_along-bounded_example =
    claims_along-bounded "a" job_a calls two_jobs (tt, (tt, (tt, (tt, tt)))) two_jobs-IsValid refl

exec_all-IsValid_example : IsValid (exec_all calls two_jobs)
exec_all-IsValid_example =
    exec_all-IsValid calls two_jobs (tt, (tt, (tt, (tt, tt)))) two_jobs-IsValid

abbrev b_running : BackgroundJob
b_running = mark_running 4000 "w1" job_b

abbrev a_running : BackgroundJob
a_running = mark_running 5000 "w2" job_a

abbrev after_one : JobStore
after_one = record two_jobs { jobs = job_a ∷ b_running ∷ [] }

abbrev after_two : JobStore
after_two = record two_jobs { jobs = a_running ∷ b_running ∷ [] }

first_claim : claim_next_job "default" "w1" 4000 60 two_jobs ≡ ok (some b_running, after_one)
unfolding claim_next_job sort_by select_where reclaim_rows update_where
first_claim = refl

second_claim : claim_next_job "default" "w2" 5000 60 after_one ≡ ok (some a_running, after_two)
unfolding claim_next_job sort_by select_where reclaim_rows update_where
second_claim = refl

claim_next_job_exclusive_example : a_running.id ≢ b_running.id
claim_next_job_exclusive_example =
    claim_next_job_exclusive "default" "default" "w1" "w2" 4000 5000 60 60 two_jobs two_jobs-IsValid
      first_claim second_claim (omega arith)

claim_next_job_lem_example :
    (r : Option BackgroundJob × JobStore) × (claim_next_job "default" "w1" 4000 60 two_jobs ≡ ok r)
    × Claimed "default" "w1" 4000 (reclaim_rows 4000 "default" 60 two_jobs.jobs) r
claim_next_job_lem_example =
    claim_next_job_lem "default" "w1" 4000 60 two_jobs two_jobs-IsValid (omega arith)

reclaim_rows-not_stale_example :
    All
      (λ r. is_stale "default" 99000 60 r ≡ false)
      (reclaim_rows 99000 "default" 60 after_two.jobs)
reclaim_rows-not_stale_example = reclaim_rows-not_stale 99000 "default" 60 after_two.jobs

reclaim_rows-eq-map_example :
    reclaim_rows 99000 "default" 60 after_two.jobs
    ≡ map (reclaimed 99000 "default" 60) after_two.jobs
reclaim_rows-eq-map_example = reclaim_rows-eq-map 99000 "default" 60 after_two.jobs

abbrev draw : ℕ → String
draw k = "c"

materialize_due_cron_jobs_lem_example :
    (ids : List String) × (t : JobStore) × (materialize_due_cron_jobs draw 3000 two_jobs
      ≡ ok (ids, t))
    × (t.jobs ≡ two_jobs.jobs ++ fired_jobs draw 0 3000 (due_schedules 3000 two_jobs.schedules))
    × (t.schedules ≡ map (advance 3000) two_jobs.schedules)
    × (length ids ≡ count_where (is_due 3000) two_jobs.schedules)
unfolding due_schedules sort_by select_where
materialize_due_cron_jobs_lem_example =
    materialize_due_cron_jobs_lem draw 3000 two_jobs (refl, tt) (refl, (refl, (refl, tt)))

-- The store after the schedule fired at 3000.
abbrev fired : JobStore
fired = record {
  jobs = two_jobs.jobs ++ cron_job hourly (draw 0) 3000 ∷ [];
  schedules = mark_run 3000 3600 hourly ∷ [];
}

materialize_due_cron_jobs_once_example :
    materialize_due_cron_jobs draw 3600000 fired ≡ fire_all draw 0 3600000 [] fired
unfolding due_schedules sort_by select_where materialize_due_cron_jobs update_where
materialize_due_cron_jobs_once_example =
    materialize_due_cron_jobs_once draw draw 3000 3600000 two_jobs fired (draw 0 ∷ []) (refl, tt)
      refl (λ up. omega arith, tt)

abbrev failing : String → Option Handler
failing job_type = some (λ job s. (threw "boom", s))

dispatch-settled_example :
    (k : BackgroundJob) × (find_where
        (has_id "b")
        (dispatch failing (λ t. t) b_running (failing "email.send") 6000 after_one).jobs
      ≡ some k)
    × (k.status ≡ status_after (outcome (failing "email.send") b_running after_one).0 b_running)
    × (k.locked_at ≡ none)
    × (k.attempts ≡ 1)
unfolding find_where
dispatch-settled_example = dispatch-settled failing (λ t. t) b_running 6000 after_one refl
