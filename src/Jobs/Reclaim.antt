-- ===== src/Jobs/Reclaim.antt =====
-- What `reclaimStaleJobs` does to each row.
use nextjs_saas_boilerplate.Common.{
  ℕ, ◌≡◌, refl, String, false, List, [], ◌∷◌, map, ltb, if◌then◌else◌, All, update_where,
  find_where, find_where-map, arith,
}
use mathlib.Core.Option
use nextjs_saas_boilerplate.Jobs.Table.{BackgroundJob, has_id, job_id}
use nextjs_saas_boilerplate.Jobs.Queue.{is_stale, requeue_stale, fail_stale, reclaim_rows}

-- One row: a stale one is queued again while it has an attempt left, and fails otherwise.
abbrev pub reclaimed : ℕ → String → ℕ → BackgroundJob → BackgroundJob
reclaimed now queue stale row =
    if is_stale queue now stale row
    then (if ltb row.attempts row.max_attempts then requeue_stale now row else fail_stale now row)
    else row

-- The two updates of `reclaimStaleJobs` do what one pass with `reclaimed` does: a row that the first
-- one queues again is not seen by the second.
pub reclaim_rows-eq-map :
    (now : ℕ) (queue : String) (stale : ℕ) (rows : List BackgroundJob)
    → reclaim_rows now queue stale rows ≡ map (reclaimed now queue stale) rows
unfolding reclaim_rows update_where
reclaim_rows-eq-map now queue stale [] = refl
reclaim_rows-eq-map now queue stale (r ∷ rows) =
    ground (arith, reclaim_rows-eq-map now queue stale rows)

-- After `reclaimStaleJobs` no row of the queue is running under a stale lock.
pub reclaim_rows-not_stale :
    (now : ℕ) (queue : String) (stale : ℕ) (rows : List BackgroundJob)
    → All (λ r. is_stale queue now stale r ≡ false) (reclaim_rows now queue stale rows)
unfolding reclaim_rows update_where
reclaim_rows-not_stale now queue stale [] = tt
reclaim_rows-not_stale now queue stale (r ∷ rows) =
    (ground arith, reclaim_rows-not_stale now queue stale rows)

reclaimed-id :
    (now : ℕ) (queue : String) (stale : ℕ) (r : BackgroundJob)
    → job_id (reclaimed now queue stale r) ≡ job_id r
reclaimed-id now queue stale r = ground arith

-- A look-up by id after it gives the reclaimed row.
pub find_where-reclaim_rows :
    (now : ℕ) (queue : String) (stale : ℕ) (id : String) (rows : List BackgroundJob)
    → find_where (has_id id) (reclaim_rows now queue stale rows)
      ≡ Option.map (reclaimed now queue stale) (find_where (has_id id) rows)
find_where-reclaim_rows now queue stale id rows =
    rw (reclaim_rows-eq-map now queue stale rows)
      (find_where-map job_id (reclaimed now queue stale) (reclaimed-id now queue stale) id rows)
