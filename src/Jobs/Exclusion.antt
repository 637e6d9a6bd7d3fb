-- ===== src/Jobs/Exclusion.antt =====
-- Two workers never hold one job.
use nextjs_saas_boilerplate.Common.{
  ℕ, ◌+◌, ◌*◌, ◌<◌, ◌≡◌, ◌≢◌, String, false, some, find_where, arith, ok, eq_refl, sym, ◌∙◌, ap,
  subst,
}
use mathlib.Core.Option
use nextjs_saas_boilerplate.Jobs.Table.{BackgroundJob, JobStore, running, has_id}
use nextjs_saas_boilerplate.Jobs.Queue.{claim_next_job, is_claimable, reclaim_rows}
use nextjs_saas_boilerplate.Jobs.Invariant.{IsValid, claim_next_job-IsValid}
use nextjs_saas_boilerplate.Jobs.Reclaim.{reclaimed, find_where-reclaim_rows}
use nextjs_saas_boilerplate.Jobs.Claims.{IsClaim, claim_next_job-Claimed}

-- A running row whose lock is fresh is not claimable after the stale ones are reclaimed.
fresh-not_claimable :
    (queue : String) (now stale : ℕ) (worker : String) (at : ℕ) (r : BackgroundJob)
    → r.status ≡ running
    → r.locked_at ≡ some at
    → now < at + stale * 1000
    → is_claimable queue now (reclaimed now queue stale r) ≡ false
fresh-not_claimable queue now stale worker at r up lock fresh = ground arith

-- From a well-formed store, where two claims follow each other with no other call between them and
-- the second comes before the first one's lock is stale, the job that the second hands out is not
-- the first one's, whichever workers and queues they are for.
pub claim_next_job_exclusive :
    (q q' worker worker' : String) (now now' stale stale' : ℕ) (s : JobStore) {t u : JobStore}
    {j j' : BackgroundJob}
    → IsValid s
    → claim_next_job q worker now stale s ≡ ok (some j, t)
    → claim_next_job q' worker' now' stale' t ≡ ok (some j', u)
    → now' < now + stale' * 1000
    → j'.id ≢ j.id
claim_next_job_exclusive q q' worker worker' now now' stale stale' s {t} {j} {j'} v e e' fresh
      same =
    let c : IsClaim q worker now (reclaim_rows now q stale s.jobs) j t =
      claim_next_job-Claimed q worker now stale s v e in
    let w = claim_next_job-IsValid q worker now stale s e v in
    let c' : IsClaim q' worker' now' (reclaim_rows now' q' stale' t.jobs) j' _ =
      claim_next_job-Claimed q' worker' now' stale' t w e' in
    let held : find_where (has_id c.row.id) t.jobs ≡ some j =
      c.stored c.row.id ∙ rw (eq_refl c.row.id) in
    let here : c'.row.id ≡ c.row.id =
      ap (λ (r : BackgroundJob). r.id) (sym c'.handed)
      ∙ same
      ∙ ap (λ (r : BackgroundJob). r.id) c.handed in
    let again : find_where (has_id c.row.id) (reclaim_rows now' q' stale' t.jobs) ≡ some c'.row =
      subst (λ i. find_where (has_id i) (reclaim_rows now' q' stale' t.jobs) ≡ some c'.row) here
        c'.found in
    let seen : some (reclaimed now' q' stale' j) ≡ some c'.row =
      ap (Option.map (reclaimed now' q' stale')) (sym held)
      ∙ sym (find_where-reclaim_rows now' q' stale' c.row.id t.jobs)
      ∙ again in
    let idle = fresh-not_claimable q' now' stale' worker now j (rw c.handed) (rw c.handed) fresh in
    let busy = c'.claimable in cc
