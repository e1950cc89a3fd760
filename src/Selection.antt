-- ===== src/Selection.antt =====
-- python/strategy_gpt/selection: how the optimizer's candidates are screened for overfitting and
-- ranked.
pub mod Cscv
pub mod Dsr
pub mod Candidates
pub mod Selector
pub mod Sensitivity
mod Examples
