-- ===== src/Lib.antt =====
-- strategy-gpt: the Python orchestrator of an LLM-driven research loop for trading strategies
-- (python/strategy_gpt). The loop diagnoses a baseline, generates candidate changes, repairs what
-- does not validate, optimizes and gates what does, ranks what passes and records every decision.
--
-- The parts and the files that model them, by the repository's paths:
--   * Prelude: Python's lists, integers, floats, exceptions and stable sort, as the models use them.
--     A float is a type `F` with a record of operations (Prelude/Floats); the laws of IEEE 754 that
--     a theorem assumes are a named record, and Prelude/Samples holds two types that obey them.
--   * Json: the opaque payloads (`Any`) that candidates and decisions carry.
--   * RejectTaxonomy: reject_taxonomy.py, the reject kinds with their wire strings.
--   * Repair: repair.py, one stage's emissions within its repair budget. `emit_fn` and `validate_fn`
--     are arguments that may change a world `W`; the rounds left are the recursion.
--   * MechanicalGate: mechanical_gate.py, the accept floor over per-fold scores.
--   * HypothesisLoop: hypothesis_loop.py, the loop's state and what it writes to the ledger. The
--     identifiers are a stream, which need not be fresh.
--   * Nodes: nodes.py, the nodes generate, critique, rank and select, and the inner loop. The
--     reasoning client is an argument that may change a world `W`. The loop runs on fuel, one more
--     than the iteration budget, since each pass counts one iteration.
--   * ProgressEvents and ProgressBus: progress/events.py and progress/bus.py, the bus of progress
--     events; ProgressEvents/Wire holds the dicts that events are written as. The clock and the
--     sinks are arguments that may change a world `W`; dicts are Prelude/Dict's ordered pairs.
--   * Workflow: workflow.py, the LangGraph graph. Workflow/Steps and Workflow/Trials hold the nodes,
--     Workflow/Graph the nodes rank and select, the conditional edge and the cycle; a node is a
--     function to the whole new state or an exception. Prompts, validators, optimizer and critics are
--     the record `NodeClients`. The cycle runs on fuel, one pass more than the iteration budget,
--     since each pass counts one iteration.
--   * Folds: folds.py, the train and out-of-sample windows of a slice; `datetime` arithmetic is the
--     argument `Calendar`.
--   * SuccessiveHalving: search/successive_halving.py, the cascade of rungs. The engine's batches are
--     an argument; the schedule runs on fuel, one more than the folds, since the budget grows
--     with each rung.
--   * AuthorDecisions: author_decisions.py, the events of the decision log and their replay; the
--     file of the log is not modelled.
--   * Optimizer: optimizer.py, the grid searcher, the parameter types and the driver `optimize`;
--     `evaluate` may raise and change the world. Optimizer/RecursiveGrid is the recursive grid and
--     its driver, in the loop of search/recursive_grid.py. A box is a value for each parameter of the
--     space, and the random order is an argument. The driver's loop runs on fuel, at least the depth.
--     It zips a batch's entries strictly while it scores them; `search` checks the length first.
--   * PerStrategyLedger: per_strategy_ledger.py. PerStrategyLedger/Store holds the class, as a record
--     of the files of one strategy's folder; pydantic, `json`, BLAKE2b, the order of paths and the
--     translation of newlines by `read_text` are arguments.
--   * Tester: tester.py. Tester/SearchSpace, Tester/Claims and Tester/Attempt hold
--     `attempt_with_optimize`, whose searchers and evaluator are arguments that may raise;
--     Tester/Translation the parameter-only change, the verdict on a criterion and the walk-forward
--     slices; Tester/Smoke the polling of a smoke run, on fuel, one more than the number of the
--     deciding poll.
--   * Selection: selection/cscv.py, selection/dsr.py, selection/sensitivity.py and
--     selection/selector.py, which takes the sensitivity as an argument; the sampled splits, the
--     normal distribution and `pstdev` are arguments, and a decision's texts `reason` and
--     `methodology` are left out. Squares are total there; only the gate's standard deviations raise
--     OverflowError.
--
-- The parts meet as in the program: a stage of the workflow runs Repair and reads its kind by
-- RejectTaxonomy; the gate answers with a kind of RejectTaxonomy; Nodes moves the entries of
-- HypothesisLoop's state, whose decisions are then persisted.
--
-- Not modelled: the Rust crates and their PyO3 bindings, the LLM clients and prompts, the engine,
-- scipy and numpy (arguments where a model calls them), file and terminal input and output, and the
-- texts of messages where only their data matters. An exception that the
-- client of Nodes, or the emitter or the validator of Repair, raises passes through the code
-- unchanged and is left out.
pub mod AuthorDecisions
pub mod Folds
pub mod HypothesisLoop
pub mod Json
pub mod MechanicalGate
pub mod Nodes
pub mod Optimizer
pub mod PerStrategyLedger
pub mod Prelude
pub mod ProgressBus
pub mod ProgressEvents
pub mod RejectTaxonomy
pub mod Repair
pub mod Selection
pub mod SuccessiveHalving
pub mod Tester
pub mod Workflow
