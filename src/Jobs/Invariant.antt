-- ===== src/Jobs/Invariant.antt =====
-- What holds of the rows of `background_jobs` between two operations.
use nextjs_saas_boilerplate.Common.{
  ℕ, ◌≤◌, ◌<◌, ◌≡◌, refl, String, true, false, List, [], ◌∷◌, ◌++◌, Option, Option-cases,
  ok-injective, All-select_where_test, none, some, ltb, leb, is_some, ok, All, All-append,
  All-first, All-sort_by, All-update_where, All-update_found, find_where, find_where-All, Distinct,
  Distinct-append, Distinct-update_where, Distinct-found, and-eq_true, arith, Bool-cases, inl, inr,
  subst,
}
use nextjs_saas_boilerplate.Jobs.Table.{
  completed, queued, running, BackgroundJob, JobStore, is_queued, is_running, job_id, has_id, taken,
}
use nextjs_saas_boilerplate.Jobs.Queue.{
  insert_job, requeue_stale, fail_stale, reclaim_rows, claims_before, is_claimable, next_job,
  mark_running, take_job, claim_next_job, mark_completed, complete_job, mark_failed, fail_job,
}

pub record IsValidJob (j : BackgroundJob) : Type 0 where
  -- no row is attempted more often than it may be
  pub bounded : j.attempts ≤ j.max_attempts
  -- a queued row has an attempt left
  pub open_if_queued : j.status ≡ queued → j.attempts < j.max_attempts
  -- a running row was attempted, and is locked by a worker
  pub started : j.status ≡ running → 0 < j.attempts
  pub locked : j.status ≡ running → (is_some j.locked_at ≡ true) × (is_some j.locked_by ≡ true)
  -- any other row is not locked
  pub unlocked : is_running j.status ≡ false → (j.locked_at ≡ none) × (j.locked_by ≡ none)
  -- a completed row says when
  pub stamped : j.status ≡ completed → is_some j.completed_at ≡ true

pub record IsValid (s : JobStore) : Type 0 where
  pub rows : All IsValidJob s.jobs
  pub keys : Distinct job_id s.jobs

mark_running-IsValidJob :
    (now : ℕ) (worker : String) (j : BackgroundJob)
    → IsValidJob j
    → is_queued j.status ≡ true
    → IsValidJob (mark_running now worker j)
mark_running-IsValidJob now worker j v q = ground arith

mark_failed-IsValidJob :
    (error : String) (now delay : ℕ) (j : BackgroundJob)
    → IsValidJob j
    → IsValidJob (mark_failed j error now delay j)
mark_failed-IsValidJob error now delay j v = ground arith

pub mark_completed-IsValidJob :
    (now : ℕ) (j : BackgroundJob) → IsValidJob j → IsValidJob (mark_completed now j)
mark_completed-IsValidJob now j v = ground arith

pub insert_job-IsValid :
    (row : BackgroundJob) (s : JobStore) {t : JobStore}
    → insert_job row s ≡ ok t
    → IsValidJob row
    → IsValid s
    → IsValid t
unfolding insert_job
insert_job-IsValid row s {t} e r v = elim (Bool-cases (taken row.id s.jobs)) [
  | inl used ↦ cc (rw used at e)
  | inr fresh ↦
      let same : record s { jobs = s.jobs ++ row ∷ [] } ≡ t = ground arith in
      subst IsValid same (record {
        rows = All-append IsValidJob s.jobs (row ∷ []) v.rows (r, tt);
        keys = Distinct-append job_id s.jobs row fresh v.keys;
      })
]

requeue_stale-IsValidJob :
    (now : ℕ) (j : BackgroundJob)
    → IsValidJob j
    → ltb j.attempts j.max_attempts ≡ true
    → IsValidJob (requeue_stale now j)
requeue_stale-IsValidJob now j v open' = ground arith

fail_stale-IsValidJob : (now : ℕ) (j : BackgroundJob) → IsValidJob j → IsValidJob (fail_stale now j)
fail_stale-IsValidJob now j v = ground arith

pub reclaim_rows-IsValid :
    (now : ℕ) (queue : String) (stale : ℕ) (s : JobStore)
    → IsValid s
    → IsValid (record s { jobs = reclaim_rows now queue stale s.jobs })
unfolding reclaim_rows
reclaim_rows-IsValid now queue stale s v = record {
  rows =
      All-update_where IsValidJob _ (fail_stale now) _ (λ j w _. fail_stale-IsValidJob now j w)
        (All-update_where IsValidJob _ (requeue_stale now) s.jobs
          (λ j w h. requeue_stale-IsValidJob now j w (and-eq_true _ _ h).1) v.rows);
  keys =
      Distinct-update_where job_id (fail_stale now) (λ j. refl) _ _
        (Distinct-update_where job_id (requeue_stale now) (λ j. refl) _ s.jobs v.keys);
}

-- What `next_job` finds satisfies what all rows satisfy, and is claimable.
pub next_job-All :
    (P : BackgroundJob → Type 0) (queue : String) (now : ℕ) (rows : List BackgroundJob)
    {j : BackgroundJob}
    → All P rows
    → next_job queue now rows ≡ some j
    → P j × (is_claimable queue now j ≡ true)
unfolding next_job
next_job-All P queue now rows h e =
    All-first (λ r. P r × (is_claimable queue now r ≡ true)) _
      (All-sort_by claims_before (λ r. P r × (is_claimable queue now r ≡ true)) _
        (All-select_where_test P (is_claimable queue now) rows h))
      e

pub next_job-found :
    (queue : String) (now : ℕ) (rows : List BackgroundJob) {j : BackgroundJob}
    → Distinct job_id rows
    → next_job queue now rows ≡ some j
    → find_where (has_id j.id) rows ≡ some j
next_job-found queue now rows d e =
    (next_job-All (λ z. find_where (has_id z.id) rows ≡ some z) queue now rows
      (Distinct-found job_id rows d) e).0

pub take_job-IsValid :
    (queue : String) (now : ℕ) (worker : String) (s : JobStore)
    → IsValid s
    → IsValid (take_job (next_job queue now s.jobs) now worker s).1
unfolding take_job
take_job-IsValid queue now worker s v = elim (Option-cases (next_job queue now s.jobs)) [
  | inl e ↦ rw e v
  | inr (j, e) ↦
      let (w, c) = next_job-All IsValidJob queue now s.jobs v.rows e in
      rw e (record {
        rows =
            All-update_found job_id IsValidJob j.id (mark_running now worker) s.jobs v.keys
              (next_job-found queue now s.jobs v.keys e)
              (mark_running-IsValidJob now worker j w (ground arith)) v.rows;
        keys = Distinct-update_where job_id (mark_running now worker) (λ r. refl) _ s.jobs v.keys;
      })
]

-- Claiming keeps the store well formed.
pub claim_next_job-IsValid :
    (queue worker : String) (now stale : ℕ) (s : JobStore) {r : Option BackgroundJob × JobStore}
    → claim_next_job queue worker now stale s ≡ ok r
    → IsValid s
    → IsValid r.1
unfolding claim_next_job
claim_next_job-IsValid queue worker now stale s {r} e v = elim (Bool-cases (leb 1 stale)) [
  | inl positive ↦
      let t = record s { jobs = reclaim_rows now queue stale s.jobs } in
      let same : take_job (next_job queue now t.jobs) now worker t ≡ r =
        ok-injective (rw positive at e) in
      subst (λ x. IsValid x.1) same
        (take_job-IsValid queue now worker t (reclaim_rows-IsValid now queue stale s v))
  | inr none' ↦ cc (rw none' at e)
]

pub fail_job-IsValid :
    (id error : String) (now delay : ℕ) (s : JobStore)
    → IsValid s
    → IsValid (fail_job id error now delay s)
unfolding fail_job
fail_job-IsValid id error now delay s v = elim (Option-cases (find_where (has_id id) s.jobs)) [
  | inl e ↦ rw e v
  | inr (j, e) ↦ rw e (record {
    rows =
        All-update_found job_id IsValidJob id (mark_failed j error now delay) s.jobs v.keys e
          (mark_failed-IsValidJob error now delay j
            (find_where-All IsValidJob (has_id id) s.jobs v.rows e).0)
          v.rows;
    keys = Distinct-update_where job_id (mark_failed j error now delay) (λ r. refl) _ s.jobs v.keys;
  })
]

pub complete_job-IsValid :
    (id : String) (now : ℕ) (s : JobStore) → IsValid s → IsValid (complete_job id now s)
unfolding complete_job
complete_job-IsValid id now s v = record {
  rows =
      All-update_where IsValidJob (has_id id) (mark_completed now) s.jobs
        (λ j w _. mark_completed-IsValidJob now j w) v.rows;
  keys = Distinct-update_where job_id (mark_completed now) (λ j. refl) (has_id id) s.jobs v.keys;
}
