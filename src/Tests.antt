-- ===== src/Tests.antt =====
-- Runs of the model on concrete contests.
mod ContestRuns
mod StandingsRuns
mod LockRuns
mod AccountRuns
mod TextRuns
mod EventRuns
mod StoreRuns
mod CacheRuns
mod JudgeRuns
mod VisitorRuns
