-- ===== src/Storage/Failing.antt =====
-- The tables after an upload that throws.
use nextjs_saas_boilerplate.Common.{◌≡◌, err}
use nextjs_saas_boilerplate.Storage.Store.{StorageStore, StorageError, Call}

-- A call that leaves the tables as they were where it throws.
abbrev pub IsAtomic : {A : Type 0} → Call A → StorageStore → Type 0
IsAtomic {A} call s = (e : StorageError) → (call s).0 ≡ err e → (call s).1 ≡ s
