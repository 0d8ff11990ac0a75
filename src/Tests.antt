-- ===== src/Tests.antt =====
-- Runs of the modelled code at concrete inputs, and the theorems applied to such inputs.
mod CoreUtils
mod NetClient
mod SessionState
mod RuntimeExec
mod ChallengeSolver
mod Queues
mod ExecQueue
mod ParserPipeline
mod Dom
mod PayloadGen
mod Supervisor
