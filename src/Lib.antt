-- ===== src/Lib.antt =====
-- The model of AstraVector's runtime core, and its theorems.
--
-- AstraVector is a retrieval service: documents are cut into chunks and embedded, vectors are kept
-- in PostgreSQL and projected into Qdrant, and queries are planned, embedded, searched and fused.
-- The files here follow the parts of src/ that carry the service's own logic.
--
-- Base            the shared names: tests, lists, saturating words.
-- Error           src/error/mod.rs: `AstraError`, its conversion to `tonic::Status`, results.
-- Scheduler       src/scheduler/mod.rs, the queue between the requests and the inference engine.
--   Retry         `encode_batch_with_retry`, `retry_delay`, `retry_budget_allows`,
--                 `is_retryable_inference_error`.
--   Batch         the inner loop of `run_loop`, which gathers one batch; `bucket_for`.
--   Round         the rest of the body of `run_loop`: receiving, the choice of a queue, answering.
--   Submit        `Scheduler::submit` and `Scheduler::submit_many`.
-- Query           src/query_processing, the plan of a query before retrieval.
--   Profile       profile.rs and the configuration of the tiers.
--   Normalization normalization.rs: `normalize_query`, with its map back to the original bytes.
--   Segmenter     segmenter.rs: `build_ranges`, `compact_ranges`, `validate_token_coverage`.
--   Segments      segmenter.rs: `segment_normalized_query`, which cuts the text at the ranges.
--   Intent        intent.rs: `extract_query_intents_normalized`, `split_intent_sentences`.
--   Plan          planner.rs: `build_query_plan`, which calls all of these, chooses the tier, binds
--                 the intents to segments (Binding) and checks the result (Check).
--                 Sound: what a plan holds; Short: when there is one.
-- Adaptive        src/adaptive/mod.rs: `AdaptiveRuntime`, which tunes parameters within the limits
--                 of their policies. The maps of overrides and of last changes are functions.
-- Blocks          src/grpc/mod.rs: `validate_and_sort_logical_blocks` and the checks that it calls,
--                 `validate_parent_child`, `assert_no_logical_block_cycle`, the source links. The walk
--                 to the root runs on fuel, the number of blocks and two: it visits no block
--                 twice.
-- Outbox          src/outbox/mod.rs: the statements on the table of events, which workers of several
--                 instances run.
--   Process       `process_event`, `upsert_from_cache`, `mark_synced`. What other transactions do to
--                 the binding between its checks is an argument.
-- Shutdown        src/shutdown/mod.rs: `ShutdownCoordinator`, as runs of atomic actions; the drop of
--                 a guard is two, the subtraction and the notification.
-- Strings         the operations of `str` on native texts.
-- Staging         src/grpc/mod.rs: `logical_block_to_json` and `logical_block_from_json`, over the JSON
--                 values of Json. A map of texts is the list of its entries.
-- Graph           src/graph/mod.rs: the structural graph of a document. Relation: the types of
--                 relations and their names. Select: the blocks that become nodes. Nodes, Edges,
--                 Pairs and Build: `build_limited_structural_graph`, stage by stage. The walk of
--                 `compute_depth` runs on fuel, the number of blocks and one: it counts no block
--                 twice. The hash behind UUIDs and the parser of JSON texts are parameters.
-- Ranking         src/grpc/mod.rs: the results of a search. Budget: `apply_token_budget_truncation`, whose
--                 loops run on fuel, the number of results, since each round removes one. Protect:
--                 the passes for protected candidates. Mmr: `apply_mmr_rerank`, with Found, Distinct
--                 and Selection on what it selects. Identity and Tally count results. The operations of
--                 `f32` are a parameter, and so is the similarity of two results, which parses
--                 embeddings and normalizes texts with third-party code.
-- Cache           src/persistence/mod.rs and src/reliability/mod.rs: the leases on the rows of the
--                 embedding cache, with Spec, the lock that they refine. Wait:
--                 `wait_or_takeover_v004`, on fuel, the turns till the deadline. Upkeep: the
--                 statements of src/recovery/mod.rs and src/retention/mod.rs on these rows.
-- Reliability     src/reliability/mod.rs: `OperationBudget`, `resolve_optional_stage_budget`.
-- Chunking        src/chunking/mod.rs: `ChunkingEngine::chunk` and `build`. Words: words and
--                 sentences. Groups: the groups of sentences. Parts: what the chunks hold. Sizes: how
--                 long they are. A text is the list of its code points. Segments: `chunk_segments`,
--                 without the locations and links of sources: what its chunks hold (Held) and their
--                 numbers (Numbers, Rising).
-- Tests           runs on concrete inputs.
--
-- State is passed explicitly. What the environment does, such as the clock, the channels, the
-- cancellation tokens, the engine, is an argument: one record for each turn of a loop. Instants and
-- durations of the scheduler are microseconds. The retry loop runs on fuel, `max_attempts`, since
-- each round is an attempt, and the gathering loop over the list of its polls. `u64` and `usize` saturate
-- where the code says so; counters and sizes that are bounded by memory are not cut off.
--
-- The loops of the segmenter run on fuel, the number of tokens: each round moves forward by one at
-- least. Texts are lists of bytes, the original query a
-- list of characters. The tokenizer is a record of functions, the trait `QueryTokenCounter`; the
-- tests of a text against word lists and regular expressions are a record of functions too.
--
-- Not modelled: metrics and logging, the SQL that PostgreSQL runs for other parts than the outbox and the
-- embedding cache, Qdrant's client, the ONNX engine, the gRPC plumbing, source locations in JSON,
-- and the modules of src that are not named above.
pub mod Base
pub mod Error
pub mod Scheduler
pub mod Query
mod Tests
pub mod Adaptive
pub mod Blocks
pub mod Outbox
pub mod Shutdown
pub mod Strings
pub mod Staging
pub mod Graph
pub mod Ranking
pub mod Cache
pub mod Reliability
pub mod Chunking
