-- ===== src/Standings.antt =====
-- internal/managers/contest_standings.go: the standings of a contest.
pub mod Types
pub mod Verdicts
pub mod Cells
pub mod Order
pub mod Build
pub mod Process
