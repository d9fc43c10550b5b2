-- ===== src/Contest.antt =====
-- Contests: their data (internal/models/contest.go, contest_participant.go) and the rules for
-- time, permissions and participants (internal/managers/contest.go).
pub mod Types
pub mod Kinds
pub mod Time
pub mod Permissions
pub mod Context
