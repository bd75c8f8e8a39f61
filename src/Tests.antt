-- ===== src/Tests.antt =====
-- Runs at fixed inputs, and the theorems applied to them.
mod Data
mod SketchRuns
mod UtilRuns
mod SupernodeRuns
mod SupernodeQueries
mod DsuRuns
mod GraphRuns
mod StreamRuns
mod WorkerRuns
mod ToolRuns
mod EagerRuns
mod FileRuns
