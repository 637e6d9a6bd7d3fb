-- ===== src/Storage.antt =====
-- packages/storage/src: who may read and change a file, uploads and clean-ups, and the quota of an
-- organization.
pub mod Store
pub mod Path
pub mod Validation
pub mod Access
pub mod Quota
pub mod Variants
pub mod Uploads
pub mod Verification
pub mod Completion
pub mod Cleanup
pub mod Charges
pub mod Counting
pub mod Balance
pub mod Releases
pub mod Sweeps
pub mod Removal
pub mod Renditions
pub mod Completing
pub mod Finishing
pub mod Inserting
pub mod Placing
pub mod Reserving
pub mod History
pub mod Once
pub mod Interrupted
pub mod Stuck
pub mod Lifecycle
pub mod Lives
pub mod Transitions
pub mod Refinement
pub mod Listing
pub mod Foreign
pub mod Limits
pub mod Deletion
pub mod Erasure
pub mod Failing
mod Tests
