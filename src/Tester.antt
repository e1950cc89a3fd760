-- ===== src/Tester.antt =====
-- python/strategy_gpt/tester.py: from a hypothesis to a verdict.
pub mod SearchSpace
pub mod Claims
pub mod Attempt
pub mod Translation
pub mod Smoke
mod Examples
