-- ===== src/Jobs/Materializing.antt =====
-- `materializeDueCronJobs` returns, and what it leaves.
use nextjs_saas_boilerplate.Common.{
  ℕ, suc, ap, not, select_where, sort_by, Bool-cases, inl, inr, subst, update_where, ◌+◌, ◌*◌, ◌<◌,
  ◌≡◌, refl, String, true, false, List, [], ◌∷◌, ◌++◌, map, arith, ok, sym, ◌∙◌, All, All-mono,
  length, count_where, Distinct, Distinct-found, map-All, All-zip,
}
use mathlib.Core.List.{append_assoc}
use nextjs_saas_boilerplate.Jobs.Table.{BackgroundJob, CronSchedule, JobStore, taken}
use nextjs_saas_boilerplate.Jobs.Queue.{insert_job}
use nextjs_saas_boilerplate.Jobs.Cron.{
  runs_before, has_schedule_id, schedule_id, is_due, due_schedules, cron_job, mark_run, fire,
  fire_all, materialize_due_cron_jobs,
}
use nextjs_saas_boilerplate.Common.{Distinct-before}
use nextjs_saas_boilerplate.Jobs.Table.{job_id}
use nextjs_saas_boilerplate.Jobs.Firing.{
  marked, fired_jobs, fire_all-eq, advance, marked-due, due_schedules_complete,
  length-due_schedules,
}

materialize_due_cron_jobs-ok :
    (uuid : ℕ → String) (now : ℕ) (s : JobStore) {ids : List String} {t : JobStore}
    → Distinct schedule_id s.schedules
    → materialize_due_cron_jobs uuid now s ≡ ok (ids, t)
    → (t.jobs ≡ s.jobs ++ fired_jobs uuid 0 now (due_schedules now s.schedules))
      × (t.schedules ≡ map (advance now) s.schedules)
      × (length ids ≡ count_where (is_due now) s.schedules)
unfolding materialize_due_cron_jobs
materialize_due_cron_jobs-ok uuid now s u e =
    let (jobs, schedules, count) = fire_all-eq uuid 0 now (due_schedules now s.schedules) s e in
    (jobs, schedules ∙ map-All _ _ s.schedules each, count ∙ due_count)
  where
    each : All (λ r. marked now (due_schedules now s.schedules) r ≡ advance now r) s.schedules
    each =
        All-mono _ _ s.schedules (λ r h. marked-due now s.schedules r h.0 u h.1)
          (All-zip _ _ s.schedules (Distinct-found schedule_id s.schedules u)
            (due_schedules_complete now s.schedules))

    due_count : length (due_schedules now s.schedules) ≡ count_where (is_due now) s.schedules
    due_count = length-due_schedules now s.schedules

insert_job-fresh :
    (row : BackgroundJob) (s : JobStore)
    → taken row.id s.jobs ≡ false
    → insert_job row s ≡ ok (record s { jobs = s.jobs ++ row ∷ [] })
unfolding insert_job
insert_job-fresh row s fresh = rw fresh

-- The loop returns if the ids that it draws are new and distinct.
fire_all_returns :
    (uuid : ℕ → String) (k now : ℕ) (due : List CronSchedule) (s : JobStore)
    → Distinct job_id (s.jobs ++ fired_jobs uuid k now due)
    → (r : List String × JobStore) × (fire_all uuid k now due s ≡ ok r)
unfolding fire_all fire
fire_all_returns uuid k now [] s h = (([], s), refl)
fire_all_returns uuid k now (d ∷ due) s h =
    let row = cron_job d (uuid k) now in
    let t = record s {
      jobs = s.jobs ++ row ∷ [];
      schedules = update_where (has_schedule_id d.id) (mark_run now d.interval_seconds) s.schedules;
    } in
    let rest = fire_all_returns uuid (suc k) now due t (
      subst (Distinct job_id)
        (sym (append_assoc s.jobs (row ∷ []) (fired_jobs uuid (suc k) now due))) h) in
    (
      (uuid k ∷ rest.0.0, rest.0.1),
      rw (
        insert_job-fresh row s
            (Distinct-before job_id s.jobs row (fired_jobs uuid (suc k) now due) h),
        rest.1,
      ),
    )

-- Where schedule ids are distinct and the job ids that it draws are new and distinct,
-- `materializeDueCronJobs` returns: it inserts one job for each due schedule, moves each due schedule
-- one interval past `now` and no other, and gives as many ids.
pub materialize_due_cron_jobs_lem :
    (uuid : ℕ → String) (now : ℕ) (s : JobStore)
    → Distinct schedule_id s.schedules
    → Distinct job_id (s.jobs ++ fired_jobs uuid 0 now (due_schedules now s.schedules))
    → (ids : List String) × (t : JobStore) × (materialize_due_cron_jobs uuid now s ≡ ok (ids, t))
      × (t.jobs ≡ s.jobs ++ fired_jobs uuid 0 now (due_schedules now s.schedules))
      × (t.schedules ≡ map (advance now) s.schedules)
      × (length ids ≡ count_where (is_due now) s.schedules)
unfolding materialize_due_cron_jobs
materialize_due_cron_jobs_lem uuid now s u fresh =
    let (r, e) = fire_all_returns uuid 0 now (due_schedules now s.schedules) s fresh in
    let (jobs, schedules, count) = materialize_due_cron_jobs-ok uuid now s u e in
    (r.0, r.1, e, jobs, schedules, count)

advance-not_due :
    (now later : ℕ) (r : CronSchedule)
    → is_due now r ≡ true
    → later < now + r.interval_seconds * 1000
    → is_due later (advance now r) ≡ false
advance-not_due now later r up soon = ground arith

-- What is due after the due schedules were advanced.
select_where-advance :
    (now later : ℕ) (rows : List CronSchedule)
    → All (λ r. is_due now r ≡ true → later < now + r.interval_seconds * 1000) rows
    → select_where (is_due later) (map (advance now) rows)
      ≡ select_where (is_due later) (select_where (λ r. not (is_due now r)) rows)
unfolding select_where
select_where-advance now later [] h = refl
select_where-advance now later (r ∷ rows) (soon, h) =
    let rest = select_where-advance now later rows h in
    elim (Bool-cases (is_due now r)) [
      | inl up ↦
          let shut = advance-not_due now later r up (soon up) in
          let moved : advance now r ≡ mark_run now r.interval_seconds r = rw up refl in
          rw (shut, up) rest
      | inr idle ↦ rw idle (elim (Bool-cases (is_due later r)) [
        | inl due ↦ rw due (rw rest refl)
        | inr still ↦ rw still rest
      ])
    ]

-- Where schedule ids are distinct, a second `materializeDueCronJobs` at a time that is less than one
-- interval after a first that returned, for each schedule that was due then, goes through those
-- schedules only that were not due then: no schedule fires twice within its interval.
pub materialize_due_cron_jobs_once :
    (uuid other_uuid : ℕ → String) (now later : ℕ) (s t : JobStore) (ids : List String)
    → Distinct schedule_id s.schedules
    → materialize_due_cron_jobs uuid now s ≡ ok (ids, t)
    → All (λ r. is_due now r ≡ true → later < now + r.interval_seconds * 1000) s.schedules
    → materialize_due_cron_jobs other_uuid later t
      ≡ fire_all other_uuid 0 later
          (due_schedules later (select_where (λ r. not (is_due now r)) s.schedules))
          t
unfolding materialize_due_cron_jobs due_schedules
materialize_due_cron_jobs_once uuid other_uuid now later s t ids u e soon =
    let (jobs, schedules, count) = materialize_due_cron_jobs-ok uuid now s u e in
    ap (λ due. fire_all other_uuid 0 later (sort_by runs_before due) t)
      (ap (select_where (is_due later)) schedules ∙ select_where-advance now later s.schedules soon)
