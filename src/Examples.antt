-- ===== src/Examples.antt =====
-- Runs of the model on concrete inputs, and the theorems at inputs that meet their hypotheses.
mod ApiRuns
mod AppRuns
mod LinkRuns
mod SyncRuns
mod LoopRuns
mod PoolRuns
mod RtpRuns
mod SessionRuns
mod TextRuns
mod UartRuns
