-- ===== src/Lib.antt =====
-- A verification library for the SaaS boilerplate: the job queue, the members and invitations of
-- organizations, rate limits, scopes and idempotent requests of the public API, one-time tokens, the
-- sign-in lock and sessions, and file storage.
--
-- The program keeps its state in SQL tables. A table is the list of its rows (Common/Tables.antt:
-- select, update, count), a primary key is distinct in it (Common/Keys.antt), and an operation is a
-- function of the tables, of the time that it reads and of what it draws at random. A timestamp is a
-- number of milliseconds since 1970, a natural number. A call that throws returns an error: where
-- the source sends its statements in one transaction the error leaves the tables as they were
-- (Common/Results.antt), and where it sends them one by one the earlier statements stay
-- (Common/Actions.antt).
--
-- The parts, with paths from the repository's root:
--   Jobs      packages/jobs/src/index.ts. Table: the rows of background_jobs and cron_schedules.
--             Queue: enqueueJob, reclaimStaleJobs, claimNextJob, completeJob, failJob. Cron:
--             registerCronSchedule, materializeDueCronJobs. Worker: runWorkerOnce, with the
--             handlers as parameters. A call is one statement, or locks both tables for its
--             transaction, so that concurrent callers and workers are a list of calls (Runs). The
--             proofs are about what a store keeps (Invariant, Runs), the two updates of stale rows
--             (Reclaim), what a claim hands out (Claims, Exclusion), the cron loop (Firing,
--             Materializing), how often a job is claimed (Attempts) and what a worker leaves
--             (Settling).
--   Tenant    packages/tenant/src/index.ts. Permissions: the catalog and hasTenantPermission. Store:
--             the tables, requireMembership, assertOwnerWillRemain. Members: updateMember,
--             removeMember. Invitations: createInvitation, acceptInvitation, rejectInvitation,
--             cancelInvitation. Owners, Redemption, Demotion and Granting hold the proofs.
--   Security  packages/security/src/service.ts. RateLimit: consumeRateLimit. The proofs, in
--             Tracking and Windows, are about one window.
--   Api       packages/api/src/service.ts. Scopes: scopeImplies, assertScopes, permissionForScopes.
--             Idempotency: withIdempotency as two steps, before and after the handler, so that
--             concurrent requests interleave. Implications states what a scope grants
--             without the code; Grants, Replay and Once hold the proofs.
--   Auth      packages/auth/src/index.ts. Tokens: createToken, consumeToken. Lockout:
--             recordLoginAttempt, assertNotLocked. Sessions: createSession, getSession,
--             revokeSession. Rotation: rotateRefreshToken, with its transaction and its looks at
--             the kept results. Consumption, Locking, Revocation and Refreshing hold the proofs.
--   Storage   packages/storage/src/service.ts, path.ts, validation.ts and media.ts. Store: the
--             tables. Access: canReadFile, canWriteFile, hasActiveGrant, getFile, listFiles,
--             grantFileAccess. Quota: reserveQuota, deleteFile, getUsage. Path, Validation and
--             Variants: object keys, validateStorageObject, the variants of an upload. Uploads:
--             createUploadIntent, uploadFile. Verification and Completion: completeUploadIntent.
--             Cleanup: the three clean-ups. Charges defines what an organization is charged, and
--             Balance the invariant on the tables; Counting, Releases, Sweeps, Removal,
--             Renditions, Completing, Finishing, Inserting, Placing and Reserving show that the
--             calls keep it, and History puts the calls in sequence. Lifecycle says how the status of a
--             file may change; Lives, Transitions and Refinement are about what each call may do
--             to it. Once, Interrupted, Stuck, Listing, Foreign, Limits, Deletion, Erasure and
--             Failing hold further proofs.
-- The module Tests of each part applies its theorems to concrete data.
--
-- The parts meet in the tables only: the worker drives the queue, and a tenant's role names are what
-- the storage service compares grants with.
--
-- Every loop of the modelled code runs over the rows of a query, or a fixed number of times, and is
-- structural recursion, so there is no fuel. Numbers that the source takes as JavaScript numbers and
-- checks to be positive integers are natural numbers here; priorities may be negative and are
-- integers. A difference of times that could be negative is written as a comparison of sums.
--
-- Parameters, for code that is not in the repository: the SHA-256 and HMAC digests of Node, its
-- random ids and tokens, extname, toLowerCase, and the handlers of jobs. JSON payloads are texts.
--
-- The storage adapter, the virus scanner, sharp and the text of a document preview answer by
-- parameters too; an object is its number of bytes and its digest. Signed URLs are left out, with the
-- errors of an adapter that refuses to sign.
--
-- Not modelled: accounts, passkeys and second factors, billing, webhooks, API keys, impersonation,
-- limits and feature flags of organizations, the storage adapters, the SQL engine itself, and the
-- pages and routes of the web application. Orders that SQL leaves open (rows that tie in ORDER BY)
-- are the table's order here. The clients of packages/db have transactions: the branch of
-- `withTransaction` for a client without them is left out. The users that a caller names are users of
-- a session and have a row in auth_users, so that the foreign keys to it refuse nothing; the other
-- foreign keys of a row come from rows that are there.
pub mod Common
pub mod Jobs
pub mod Tenant
pub mod Security
pub mod Api
pub mod Auth
pub mod Storage
