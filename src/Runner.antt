-- ===== src/Runner.antt =====
-- rescan/pipeline/runner.py: batches, analysis runs and their rules.
pub mod Env
pub mod Ingest
pub mod Batch
pub mod Acts
pub mod Settled
pub mod Waiting
pub mod Processed
pub mod Statuses
pub mod Uploads
pub mod Details
pub mod Rules
pub mod RuleIds
pub mod Added
pub mod Removed
pub mod Screening
pub mod Ranking
pub mod Runs
pub mod Finished
pub mod Ready
pub mod Outcomes
pub mod Screened
