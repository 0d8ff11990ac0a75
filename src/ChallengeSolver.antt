-- ===== src/ChallengeSolver.antt =====
-- crates/challenge-solver: the cache of answers.
pub mod AnswerCache
