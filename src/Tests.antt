-- ===== src/Tests.antt =====
-- Runs of the model on concrete inputs, and each theorem that has hypotheses at such an input.
mod Scheduler
mod Retry
mod Query
mod Plan
mod Adaptive
mod Blocks
mod Outbox
mod Shutdown
mod Staging
mod Graph
mod Ranking
mod Cache
mod Chunking
