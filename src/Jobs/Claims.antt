-- ===== src/Jobs/Claims.antt =====
-- Which job `claimNextJob` hands out.
use nextjs_saas_boilerplate.Common.{
  ℕ, ◌+◌, ◌<◌, ◌≤◌, ◌⊎◌, All-mono, le→leb, ◌≡◌, refl, String, true, false, List, leb, All, Option,
  none, some, Option-cases, Bool-cases, inl, inr, update_where, select_where, select_where-nil,
  select_where-eq_nil, sort_by-none, find_where, sort_by, sort_by-first, IsOrder, arith, ok,
  ok-injective, ◌↔◌, if◌then◌else◌, subst, find_where-update_where, eq_iff, ◌==◌,
}
use nextjs_saas_boilerplate.Jobs.Table.{running, BackgroundJob, JobStore, has_id, job_id}
use nextjs_saas_boilerplate.Common.Int.{leb_ℤ}
use nextjs_saas_boilerplate.Jobs.Queue.{
  claims_before, is_claimable, next_job, mark_running, take_job, claim_next_job, reclaim_rows,
}
use nextjs_saas_boilerplate.Jobs.Invariant.{
  IsValid, IsValidJob, next_job-All, next_job-found, reclaim_rows-IsValid,
}

claims_before-IsOrder : IsOrder claims_before
claims_before-IsOrder = record { total = λ x y h. ground arith; trans = λ x y z h k. ground arith }

-- `next_job` gives nothing exactly when no row is claimable.
pub next_job-none :
    (queue : String) (now : ℕ) (rows : List BackgroundJob)
    → (next_job queue now rows ≡ none) ↔ All (λ z. is_claimable queue now z ≡ false) rows
unfolding next_job sort_by
next_job-none queue now rows = (
  λ e. select_where-nil _ rows (sort_by-none claims_before _ e),
  λ h. rw (select_where-eq_nil _ rows h),
)

-- The row `x` has a higher priority than `y`, or the same, and then it became available earlier,
-- or at the same time and was created no later.
abbrev pub IsAhead : BackgroundJob → BackgroundJob → Type 0
IsAhead x y =
    (leb_ℤ x.priority y.priority ≡ false)
    ⊎ ((leb_ℤ y.priority x.priority ≡ true)
        × ((x.available_at < y.available_at)
            ⊎ ((x.available_at ≡ y.available_at) × (x.created_at ≤ y.created_at))))

claims_before-IsAhead : (x y : BackgroundJob) → claims_before x y ≡ true → IsAhead x y
claims_before-IsAhead x y e = ground arith

-- What a claim that hands out `j` and leaves `t` says of the rows `rows` that it chose from.
pub record IsClaim (queue worker : String) (now : ℕ) (rows : List BackgroundJob) (j : BackgroundJob)
    (t : JobStore) : Type 0 where
  -- the row as it stood
  pub row : BackgroundJob
  pub found : find_where (has_id row.id) rows ≡ some row
  pub claimable : is_claimable queue now row ≡ true
  -- no claimable row has a higher priority, or the same and is older
  pub leading : All (IsAhead row) (select_where (is_claimable queue now) rows)
  -- it is handed out as running, with one more attempt
  pub handed : j ≡ mark_running now worker row
  pub locked :
      (j.status ≡ running)
      × (j.attempts ≡ row.attempts + 1)
      × (j.locked_at ≡ some now)
      × (j.locked_by ≡ some worker)
  -- so it stands in the table, and no other row changes
  pub stored :
      (id : String)
      → find_where (has_id id) t.jobs
        ≡ (if row.id == id then some j else find_where (has_id id) rows)

take_job-IsClaim :
    (queue worker : String) (now : ℕ) (s : JobStore) {j : BackgroundJob}
    → IsValid s
    → next_job queue now s.jobs ≡ some j
    → IsClaim queue worker now s.jobs (mark_running now worker j) (take_job (some j) now worker s).1
unfolding take_job next_job
take_job-IsClaim queue worker now s {j} v e = record {
  row = j;
  found = next_job-found queue now s.jobs v.keys e;
  claimable = (next_job-All IsValidJob queue now s.jobs v.rows e).1;
  leading =
      All-mono (λ z. claims_before j z ≡ true) (IsAhead j)
        (select_where (is_claimable queue now) s.jobs) (claims_before-IsAhead j)
        (sort_by-first claims_before claims_before-IsOrder
          (select_where (is_claimable queue now) s.jobs) j e);
  handed = refl;
  locked = (refl, refl, refl, refl);
  stored = λ id. stored_at id;
}
  where
    found : find_where (has_id j.id) s.jobs ≡ some j
    found = next_job-found queue now s.jobs v.keys e

    stored_at :
        (id : String)
        → find_where (has_id id) (update_where (has_id j.id) (mark_running now worker) s.jobs)
          ≡ (if j.id == id then some (mark_running now worker j) else find_where (has_id id) s.jobs)
    stored_at id = elim (Bool-cases (j.id == id)) [
      | inl same ↦ rw (
        find_where-update_where job_id (mark_running now worker) (λ r. refl) j.id id s.jobs,
        same,
        ← (eq_iff j.id id).0 same,
        found,
      )
      | inr other ↦ rw (
        find_where-update_where job_id (mark_running now worker) (λ r. refl) j.id id s.jobs,
        other,
      )
    ]

-- A successful claim hands out a claimable job that none comes before, or nothing where no row is
-- claimable; the rows are those that `reclaim_rows` leaves.
abbrev pub Claimed :
    String → String → ℕ → List BackgroundJob → Option BackgroundJob × JobStore → Type 0
Claimed queue worker now rows (none, t) =
    All (λ z. is_claimable queue now z ≡ false) rows × (t.jobs ≡ rows)
Claimed queue worker now rows (some j, t) = IsClaim queue worker now rows j t

take_job-Claimed :
    (queue worker : String) (now : ℕ) (s : JobStore)
    → IsValid s
    → Claimed queue worker now s.jobs (take_job (next_job queue now s.jobs) now worker s)
unfolding take_job
take_job-Claimed queue worker now s v = elim (Option-cases (next_job queue now s.jobs)) [
  | inl e ↦ rw e ((next_job-none queue now s.jobs).0 e, refl)
  | inr (j, e) ↦ rw e (take_job-IsClaim queue worker now s v e)
]

pub claim_next_job-Claimed :
    (queue worker : String) (now stale : ℕ) (s : JobStore) {r : Option BackgroundJob × JobStore}
    → IsValid s
    → claim_next_job queue worker now stale s ≡ ok r
    → Claimed queue worker now (reclaim_rows now queue stale s.jobs) r
unfolding claim_next_job
claim_next_job-Claimed queue worker now stale s {r} v e = elim (Bool-cases (leb 1 stale)) [
  | inl positive ↦
      let t = record s { jobs = reclaim_rows now queue stale s.jobs } in
      let same : take_job (next_job queue now t.jobs) now worker t ≡ r =
        ok-injective (rw positive at e) in
      subst (Claimed queue worker now t.jobs) same
        (take_job-Claimed queue worker now t (reclaim_rows-IsValid now queue stale s v))
  | inr none' ↦ cc (rw none' at e)
]

-- From a well-formed store and with a positive lock timeout, a claim returns: it hands out the row
-- that comes first by priority and age among the claimable ones once stale rows are reclaimed,
-- stored as running under the worker, with every other row as it was; where no row is claimable it
-- hands out none and changes no other row.
pub claim_next_job_lem :
    (queue worker : String) (now stale : ℕ) (s : JobStore)
    → IsValid s
    → 0 < stale
    → (r : Option BackgroundJob × JobStore) × (claim_next_job queue worker now stale s ≡ ok r)
      × Claimed queue worker now (reclaim_rows now queue stale s.jobs) r
unfolding claim_next_job
claim_next_job_lem queue worker now stale s v positive =
    let t = record s { jobs = reclaim_rows now queue stale s.jobs } in
    (
      take_job (next_job queue now t.jobs) now worker t,
      rw (le→leb 1 stale positive),
      take_job-Claimed queue worker now t (reclaim_rows-IsValid now queue stale s v),
    )
