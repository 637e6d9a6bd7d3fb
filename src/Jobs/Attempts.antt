-- ===== src/Jobs/Attempts.antt =====
-- How often a job is handed out.
use nextjs_saas_boilerplate.Common.{
  ℕ, suc, ◌+◌, ◌≤◌, ◌≡◌, refl, String, List, [], ◌∷◌, Option, none, some, update_where, find_where,
  find_where-append, arith, ok, err, Result, eq_iff, sym, ◌∙◌, ap, subst, All, Bool-cases, inl, inr,
  ◌==◌, find_where-update_where, find_where-All, ok-injective, >>=-eq-ok,
}
use mathlib.Core.Option.{some-injective}
use nextjs_saas_boilerplate.Jobs.Table.{
  BackgroundJob, JobStore, JobError, has_id, job_id, CronSchedule,
}
use nextjs_saas_boilerplate.Jobs.Queue.{
  EnqueueInput, enqueued_row, enqueue_job, insert_job, claim_next_job, complete_job, fail_job,
  fail_found, reclaim_rows, mark_completed, mark_failed,
}
use nextjs_saas_boilerplate.Jobs.Cron.{
  register_cron_schedule, materialize_due_cron_jobs, fire_all, fire, cron_job, due_schedules,
}
use nextjs_saas_boilerplate.Jobs.Invariant.{IsValidJob, IsValid}
use nextjs_saas_boilerplate.Jobs.Reclaim.{reclaimed, find_where-reclaim_rows}
use nextjs_saas_boilerplate.Jobs.Claims.{Claimed, claim_next_job-Claimed}
use nextjs_saas_boilerplate.Jobs.Firing.{insert_job-eq, fire-eq}
use nextjs_saas_boilerplate.Jobs.Runs.{
  Command, enqueue, register, materialize, claim, complete, fail, settled, exec, handed_out, claims,
  claims_along, IsSound, exec-IsValid, register-jobs,
}

-- The row `id` is still there, with its `max_attempts` and `n` more attempts.
abbrev Counted : String → BackgroundJob → ℕ → List BackgroundJob → Type 0
Counted id j n rows =
    (k : BackgroundJob) × (find_where (has_id id) rows ≡ some k)
    × (k.max_attempts ≡ j.max_attempts)
    × (k.attempts ≡ j.attempts + n)

insert-Counted :
    (id : String) (j row : BackgroundJob) (s : JobStore) {t : JobStore}
    → find_where (has_id id) s.jobs ≡ some j
    → insert_job row s ≡ ok t
    → Counted id j 0 t.jobs
insert-Counted id j row s {t} f e =
    let same = ap (λ (x : JobStore). x.jobs) (insert_job-eq row s e) in
    (j, rw (← same) (find_where-append (has_id id) s.jobs (row ∷ []) f), refl, omega arith)

fire_all-Counted :
    (id : String) (j : BackgroundJob) (uuid : ℕ → String) (k now : ℕ) (due : List CronSchedule)
    (s : JobStore) {r : List String × JobStore}
    → find_where (has_id id) s.jobs ≡ some j
    → fire_all uuid k now due s ≡ ok r
    → find_where (has_id id) r.1.jobs ≡ some j
unfolding fire_all
fire_all-Counted id j uuid k now [] s f e =
    subst (λ (x : List String × JobStore). find_where (has_id id) x.1.jobs ≡ some j)
      (ok-injective e) f
fire_all-Counted id j uuid k now (d ∷ due) s f e =
    let (u, fired, rest) = >>=-eq-ok (fire d (uuid k) now s) _ e in
    let (r', later, last) = >>=-eq-ok (fire_all uuid (suc k) now due u) _ rest in
    let g : find_where (has_id id) u.jobs ≡ some j =
      rw (fire-eq d (uuid k) now s fired).0
        (find_where-append (has_id id) s.jobs (cron_job d (uuid k) now ∷ []) f) in
    subst (λ (x : List String × JobStore). find_where (has_id id) x.1.jobs ≡ some j)
      (ok-injective last) (fire_all-Counted id j uuid (suc k) now due u g later)

-- Taking a row from the reclaimed ones.
claim-Counted :
    (id : String) (j : BackgroundJob) (queue worker : String) (now stale : ℕ) (s : JobStore)
    → find_where (has_id id) s.jobs ≡ some j
    → (r : Option BackgroundJob × JobStore)
    → Claimed queue worker now (reclaim_rows now queue stale s.jobs) r
    → Counted id j (handed_out id (ok r)) r.1.jobs
claim-Counted id j queue worker now stale s f (none, t) (_, same) = (
  reclaimed now queue stale j,
  rw (same, find_where-reclaim_rows now queue stale id s.jobs, f),
  ground arith,
  ground arith,
)
claim-Counted id j queue worker now stale s f (some c, t) h =
    let there : find_where (has_id id) (reclaim_rows now queue stale s.jobs)
        ≡ some (reclaimed now queue stale j) =
      rw (find_where-reclaim_rows now queue stale id s.jobs, f) in
    elim (Bool-cases (h.row.id == id)) [
      | inl mine ↦
          let found : find_where (has_id id) (reclaim_rows now queue stale s.jobs) ≡ some h.row =
            subst (λ i. find_where (has_id i) (reclaim_rows now queue stale s.jobs) ≡ some h.row)
              ((eq_iff h.row.id id).0 mine) h.found in
          let same : h.row ≡ reclaimed now queue stale j = some-injective _ _ (sym found ∙ there) in
          (
            c,
            h.stored id ∙ rw mine,
            rw (h.handed, same) (ground arith),
            rw (h.handed, mine, same) (ground arith),
          )
      | inr other ↦ (
        reclaimed now queue stale j,
        h.stored id ∙ rw other there,
        ground arith,
        rw (h.handed, other) (ground arith),
      )
    ]

update-Counted :
    (id i : String) (j : BackgroundJob) (f : BackgroundJob → BackgroundJob)
    (rows : List BackgroundJob)
    → ((r : BackgroundJob) → job_id (f r) ≡ job_id r)
    → ((f j).max_attempts ≡ j.max_attempts) × ((f j).attempts ≡ j.attempts)
    → find_where (has_id id) rows ≡ some j
    → Counted id j 0 (update_where (has_id i) f rows)
update-Counted id i j f rows keeps (most, now') e = elim (Bool-cases (i == id)) [
  | inl mine ↦
      (f j, rw (find_where-update_where job_id f keeps i id rows, mine, e), most, omega arith)
  | inr other ↦
      (j, rw (find_where-update_where job_id f keeps i id rows, other) e, refl, omega arith)
]

settled-Counted :
    {A : Type 0} (id : String) (j : BackgroundJob) (f : A → JobStore) (r : Result JobError A)
    (s : JobStore)
    → find_where (has_id id) s.jobs ≡ some j
    → ((a : A) → r ≡ ok a → Counted id j 0 (f a).jobs)
    → Counted id j 0 (settled f r s).jobs
settled-Counted id j f (ok a) s e h = h a refl
settled-Counted id j f (err x) s e h = (j, e, refl, omega arith)

claimed-Counted :
    (id : String) (j : BackgroundJob) (r : Result JobError (Option BackgroundJob × JobStore))
    (s : JobStore)
    → find_where (has_id id) s.jobs ≡ some j
    → ((a : Option BackgroundJob × JobStore)
        → r ≡ ok a
        → Counted id j (handed_out id (ok a)) a.1.jobs)
    → Counted id j (handed_out id r) (settled (λ x. x.1) r s).jobs
claimed-Counted id j (ok a) s e h = h a refl
claimed-Counted id j (err x) s e h = (j, e, refl, omega arith)

fail_found-Counted :
    (id i error : String) (j : BackgroundJob) (now delay : ℕ) (o : Option BackgroundJob)
    (s : JobStore)
    → find_where (has_id id) s.jobs ≡ some j
    → Counted id j 0 (fail_found o i error now delay s).jobs
unfolding fail_found
fail_found-Counted id i error j now delay none s f = (j, f, refl, omega arith)
fail_found-Counted id i error j now delay (some job) s f =
    update-Counted id i j (mark_failed job error now delay) s.jobs (λ r. refl) (refl, refl) f

enqueue-Counted :
    (id : String) (j : BackgroundJob) (input : EnqueueInput) (uuid : String) (now : ℕ)
    (s : JobStore) {r : String × JobStore}
    → find_where (has_id id) s.jobs ≡ some j
    → enqueue_job input uuid now s ≡ ok r
    → Counted id j 0 r.1.jobs
unfolding enqueue_job
enqueue-Counted id j input uuid now s f e =
    let (t, made, last) = >>=-eq-ok (insert_job (enqueued_row input uuid now) s) _ e in
    subst (λ (x : String × JobStore). Counted id j 0 x.1.jobs) (ok-injective last)
      (insert-Counted id j (enqueued_row input uuid now) s f made)

materialize-Counted :
    (id : String) (j : BackgroundJob) (uuid : ℕ → String) (now : ℕ) (s : JobStore)
    {r : List String × JobStore}
    → find_where (has_id id) s.jobs ≡ some j
    → materialize_due_cron_jobs uuid now s ≡ ok r
    → find_where (has_id id) r.1.jobs ≡ some j
unfolding materialize_due_cron_jobs
materialize-Counted id j uuid now s f e =
    fire_all-Counted id j uuid 0 now (due_schedules now s.schedules) s f e

complete-Counted :
    (id i : String) (j : BackgroundJob) (now : ℕ) (s : JobStore)
    → find_where (has_id id) s.jobs ≡ some j
    → Counted id j 0 (complete_job i now s).jobs
unfolding complete_job
complete-Counted id i j now s f =
    update-Counted id i j (mark_completed now) s.jobs (λ r. refl) (refl, refl) f

fail-Counted :
    (id i error : String) (j : BackgroundJob) (now delay : ℕ) (s : JobStore)
    → find_where (has_id id) s.jobs ≡ some j
    → Counted id j 0 (fail_job i error now delay s).jobs
unfolding fail_job
fail-Counted id i error j now delay s f =
    fail_found-Counted id i error j now delay (find_where (has_id i) s.jobs) s f

-- One call: the row stays, and its attempts grow by one exactly if it is handed out.
pub exec-Counted :
    (id : String) (j : BackgroundJob) (c : Command) (s : JobStore)
    → IsValid s
    → find_where (has_id id) s.jobs ≡ some j
    → Counted id j (claims id c s) (exec c s).jobs
unfolding exec claims
exec-Counted id j (enqueue input uuid now) s v f =
    settled-Counted id j (λ x. x.1) (enqueue_job input uuid now s) s f
      λ r e. enqueue-Counted id j input uuid now s f e
exec-Counted id j (register input uuid now) s v f =
    settled-Counted id j (λ x. x.1) (register_cron_schedule input uuid now s) s f
      λ r e. (j, rw (← register-jobs input uuid now s e) f, refl, omega arith)
exec-Counted id j (materialize uuid now) s v f =
    settled-Counted id j (λ x. x.1) (materialize_due_cron_jobs uuid now s) s f
      λ r e. (j, materialize-Counted id j uuid now s f e, refl, omega arith)
exec-Counted id j (claim queue worker now stale) s v f =
    claimed-Counted id j (claim_next_job queue worker now stale s) s f λ r e.
      claim-Counted id j queue worker now stale s f r
        (claim_next_job-Claimed queue worker now stale s v e)
exec-Counted id j (complete i now) s v f = complete-Counted id i j now s f
exec-Counted id j (fail i error now delay) s v f = fail-Counted id i error j now delay s f

-- From a well-formed store and along any calls whose enqueued jobs have an attempt, a job that was
-- attempted `n` times is handed out at most `max_attempts - n` times more.
pub claims_along-bounded :
    (id : String) (j : BackgroundJob) (cs : List Command) (s : JobStore)
    → All IsSound cs
    → IsValid s
    → find_where (has_id id) s.jobs ≡ some j
    → j.attempts + claims_along id cs s ≤ j.max_attempts
unfolding claims_along
claims_along-bounded id j [] s h v f =
    omega (arith, (find_where-All IsValidJob (has_id id) s.jobs v.rows f).0.bounded)
claims_along-bounded id j (c ∷ cs) s (h, hs) v f =
    let (k, found, most, grown) = exec-Counted id j c s v f in
    let later = claims_along-bounded id k cs (exec c s) hs (exec-IsValid c s h v) found in
    omega arith
