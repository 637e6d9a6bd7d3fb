-- ===== src/Jobs/Firing.antt =====
-- What `materializeDueCronJobs` does to the schedules and to the queue.
use nextjs_saas_boilerplate.Common.{
  ℕ, suc, ◌≡◌, refl, String, true, false, List, [], ◌∷◌, ◌++◌, map, some, find_where, arith, ok,
  if◌then◌else◌, eq_refl, eq_iff, sym, ◌∙◌, ap, All, All-mono, All-sort_by, sort_by-All, Bool-cases,
  inl, inr, select_where, select_where-All, ok-injective, length, count_where, Distinct,
  Distinct-found, update_where-eq-map, length-select_where, length-sort_by, All-select_where_test,
  ◌==◌, >>=-eq-ok, any,
}
use mathlib.Core.Option.{some-injective}
use mathlib.Core.List.{append-nil, append_assoc, map-map, map-id}
use nextjs_saas_boilerplate.Jobs.Table.{BackgroundJob, CronSchedule, JobStore, taken}
use nextjs_saas_boilerplate.Jobs.Queue.{insert_job}
use nextjs_saas_boilerplate.Jobs.Cron.{
  has_schedule_id, schedule_id, is_due, runs_before, due_schedules, cron_job, mark_run, fire,
  fire_all,
}

-- What the loop does to one schedule: it is marked once for each due schedule with its id.
abbrev pub marked : ℕ → List CronSchedule → CronSchedule → CronSchedule
marked now [] row = row
marked now (d ∷ due) row =
    marked now due (if row.id == d.id then mark_run now d.interval_seconds row else row)

-- The jobs that the loop inserts, in order.
abbrev pub fired_jobs : (ℕ → String) → ℕ → ℕ → List CronSchedule → List BackgroundJob
fired_jobs uuid k now [] = []
fired_jobs uuid k now (d ∷ due) = cron_job d (uuid k) now ∷ fired_jobs uuid (suc k) now due

pub insert_job-eq :
    (row : BackgroundJob) (s : JobStore) {t : JobStore}
    → insert_job row s ≡ ok t
    → record s { jobs = s.jobs ++ row ∷ [] } ≡ t
unfolding insert_job
insert_job-eq row s {t} e = elim (Bool-cases (taken row.id s.jobs)) [
  | inl used ↦ cc (rw used at e)
  | inr fresh ↦ ok-injective (rw fresh at e)
]

-- `fire` is one append and one marking.
pub fire-eq :
    (d : CronSchedule) (id : String) (now : ℕ) (s : JobStore) {t : JobStore}
    → fire d id now s ≡ ok t
    → (t.jobs ≡ s.jobs ++ cron_job d id now ∷ [])
      × (t.schedules
          ≡ map (λ r. if r.id == d.id then mark_run now d.interval_seconds r else r) s.schedules)
unfolding fire
fire-eq d id now s {t} e =
    let (u, made, rest) = >>=-eq-ok (insert_job (cron_job d id now) s) _ e in
    let same = insert_job-eq (cron_job d id now) s made in
    let last = ok-injective rest in
    (
      ap (λ (x : JobStore). x.jobs) (sym last) ∙ ap (λ (x : JobStore). x.jobs) (sym same),
      ap (λ (x : JobStore). x.schedules) (sym last)
          ∙ update_where-eq-map (has_schedule_id d.id) (mark_run now d.interval_seconds) u.schedules
          ∙ ap
              (λ (x : JobStore).
                map (λ r. if r.id == d.id then mark_run now d.interval_seconds r else r)
                  x.schedules)
              (sym same),
    )

pub fire_all-eq :
    (uuid : ℕ → String) (k now : ℕ) (due : List CronSchedule) (s : JobStore) {ids : List String}
    {t : JobStore}
    → fire_all uuid k now due s ≡ ok (ids, t)
    → (t.jobs ≡ s.jobs ++ fired_jobs uuid k now due)
      × (t.schedules ≡ map (marked now due) s.schedules)
      × (length ids ≡ length due)
unfolding fire_all
fire_all-eq uuid k now [] s e =
    let same = ok-injective e in
    (
      rw append-nil (ap (λ (x : List String × JobStore). x.1.jobs) (sym same)),
      ap (λ (x : List String × JobStore). x.1.schedules) (sym same) ∙ sym (map-id s.schedules),
      ap (λ (x : List String × JobStore). length x.0) (sym same),
    )
fire_all-eq uuid k now (d ∷ due) s {ids} {t} e =
    let (u, fired, rest) = >>=-eq-ok (fire d (uuid k) now s) _ e in
    let (r, later, last) = >>=-eq-ok (fire_all uuid (suc k) now due u) _ rest in
    let (jobs, schedules) = fire-eq d (uuid k) now s fired in
    let (jobs', schedules', count') =
      fire_all-eq uuid (suc k) now due u {ids = r.0} {t = r.1} later in
    let same = ok-injective last in
    (
      ap (λ (x : List String × JobStore). x.1.jobs) (sym same)
          ∙ jobs'
          ∙ ap (λ l. l ++ fired_jobs uuid (suc k) now due) jobs
          ∙ append_assoc s.jobs (cron_job d (uuid k) now ∷ []) (fired_jobs uuid (suc k) now due),
      ap (λ (x : List String × JobStore). x.1.schedules) (sym same)
          ∙ schedules'
          ∙ ap (map (marked now due)) schedules
          ∙ map-map _ _ s.schedules,
      ap (λ (x : List String × JobStore). length x.0) (sym same) ∙ ap suc count',
    )

-- With unique ids, a schedule is marked exactly if it is due itself.
abbrev pub advance : ℕ → CronSchedule → CronSchedule
advance now row = if is_due now row then mark_run now row.interval_seconds row else row

contains_self : (xs : List CronSchedule) → All (λ z. any (λ d. z.id == d.id) xs ≡ true) xs
contains_self [] = tt
contains_self (x ∷ xs) =
    (rw (eq_refl x.id), All-mono _ _ xs (λ z h. ground arith) (contains_self xs))

abbrev Agrees : CronSchedule → CronSchedule → Type 0
Agrees row d = (row.id == d.id) ≡ true → d.interval_seconds ≡ row.interval_seconds

marked_lem :
    (now : ℕ) (due : List CronSchedule) (row : CronSchedule)
    → All (Agrees row) due
    → marked now due row
      ≡ (if any (λ d. row.id == d.id) due then mark_run now row.interval_seconds row else row)
marked_lem now [] row h = refl
marked_lem now (d ∷ due) row (p, h) = elim (Bool-cases (row.id == d.id)) [
  | inl hit ↦
      rw (hit, p hit) (marked_lem now due (mark_run now row.interval_seconds row) h ∙ ground arith)
  | inr miss ↦ rw miss (marked_lem now due row h)
]

-- The rows that are due stand among the due schedules, and only they do.
pub due_schedules_complete :
    (now : ℕ) (rows : List CronSchedule)
    → All (λ r. is_due now r ≡ true → any (λ d. r.id == d.id) (due_schedules now rows) ≡ true) rows
unfolding due_schedules
due_schedules_complete now rows =
    select_where-All (λ r. any (λ d. r.id == d.id) (due_schedules now rows) ≡ true) (is_due now)
      rows
      (sort_by-All runs_before (λ r. any (λ d. r.id == d.id) (due_schedules now rows) ≡ true) _
        (contains_self (due_schedules now rows)))

due_schedules-rows :
    (now : ℕ) (rows : List CronSchedule)
    → Distinct schedule_id rows
    → All
        (λ d. (find_where (has_schedule_id d.id) rows ≡ some d) × (is_due now d ≡ true))
        (due_schedules now rows)
unfolding due_schedules
due_schedules-rows now rows u = All-sort_by runs_before _ _ (
    All-select_where_test (λ d. find_where (has_schedule_id d.id) rows ≡ some d) (is_due now) rows
      (Distinct-found schedule_id rows u))

-- A schedule with the id of a due one, found under its own id, is that one.
same_row :
    (rows : List CronSchedule) (r d : CronSchedule)
    → find_where (has_schedule_id r.id) rows ≡ some r
    → find_where (has_schedule_id d.id) rows ≡ some d
    → (r.id == d.id) ≡ true
    → d ≡ r
same_row rows r d e f same =
    some-injective d r
      (sym f ∙ ap (λ i. find_where (has_schedule_id i) rows) (sym ((eq_iff r.id d.id).0 same)) ∙ e)

module _ (now : ℕ) (rows : List CronSchedule) (r : CronSchedule)
    (mine : find_where (has_schedule_id r.id) rows ≡ some r) where
  agrees :
      (due : List CronSchedule)
      → All (λ d. (find_where (has_schedule_id d.id) rows ≡ some d) × (is_due now d ≡ true)) due
      → All (Agrees r) due
  agrees [] h = tt
  agrees (d ∷ due) ((f, _), h) = (
    λ same. ap (λ (x : CronSchedule). x.interval_seconds) (same_row rows r d mine f same),
    agrees due h,
  )

  not_listed :
      (due : List CronSchedule)
      → is_due now r ≡ false
      → All (λ d. (find_where (has_schedule_id d.id) rows ≡ some d) × (is_due now d ≡ true)) due
      → any (λ d. r.id == d.id) due ≡ false
  not_listed [] idle h = refl
  not_listed (d ∷ due) idle ((f, up), h) = elim (Bool-cases (r.id == d.id)) [
    | inl same ↦ cc (same_row rows r d mine f same)
    | inr other ↦ rw other (not_listed due idle h)
  ]

  pub marked-due :
      Distinct schedule_id rows
      → (is_due now r ≡ true → any (λ d. r.id == d.id) (due_schedules now rows) ≡ true)
      → marked now (due_schedules now rows) r ≡ advance now r
  marked-due u complete =
      marked_lem now (due_schedules now rows) r
        (agrees (due_schedules now rows) (due_schedules-rows now rows u))
      ∙ elim (Bool-cases (is_due now r)) [
        | inl up ↦ rw (complete up, up)
        | inr idle ↦
            rw (not_listed (due_schedules now rows) idle (due_schedules-rows now rows u), idle)
      ]

pub length-due_schedules :
    (now : ℕ) (rows : List CronSchedule)
    → length (due_schedules now rows) ≡ count_where (is_due now) rows
unfolding due_schedules
length-due_schedules now rows =
    length-sort_by runs_before (select_where (is_due now) rows)
    ∙ length-select_where (is_due now) rows
