-- ===== src/Lib.antt =====
-- The verification library of Phantom Runtime Lite.
--
-- The program is a Python runtime that listens to a conversation, and a chain of read-only layers
-- that judge what it reports. A raw event of the runtime goes through the adapter (it gives the
-- event a session and a number), the verification runtime (gaps, order, fallbacks), the trust
-- runtime (a score, a level, a recommendation), the dashboard and the aggregator; the pipeline
-- orchestrator holds the adapter and the verification state and runs the chain. On the audio side
-- the voice detection loop feeds blocks to the voice buffer, which cuts them into segments; the
-- conversation modules guess the speaker and turn noise away; the memory keeps facts, questions and
-- decisions of subjects that can be merged. In front of the runtime a shell serves one client at a
-- time: the gateway lets a connection in, the shell spawns a runtime child for it with three pipes,
-- and events go back line by line. The client at the other end calibrates its speech gate, forwards
-- the blocks that are loud enough and keeps a log of the events.
--
-- Value, Verification (Data, Checks, Handle)
--   src/verification: `handle` with every check it calls; `LastSeen` is its `_last_seen`. Theorems
--   in Verification/Awareness, Ordering, Sessions and Conformance.
-- Trust
--   src/trust: `_apply_trust_policy` is `policy_score` and `policy_factors`. Theorems in
--   Trust/Policy.
-- Dashboard
--   src/dashboard and src/aggregator: `render`, `aggregate`.
-- Adapter
--   src/runtime/event_adapter.py: `translate`. Theorems in Adapter/Payload.
-- Pipeline
--   src/runtime/pipeline_orchestrator.py: `run`, and `run_all` for a session. Theorems in
--   Pipeline/Sessions, Levels, Gaps and Clock.
-- Audio/Buffer, Audio/Vad
--   src/audio/vad_buffering.py and src/audio/vad.py: the methods of `VADBuffer`, and the rounds of
--   the loop `run`. Theorems in the modules below the two.
-- Conversation/Text, Speaker, Guard
--   src/conversation: `infer_speaker` with the module's state, `is_meaningful`.
-- Memory/Records, Names, Registry, Merge, Approval
--   src/phantom_runtime.py: merged subjects (`_subject_resolve_merge`, `_subject_merge_validate`),
--   the merge transaction, the approval queue, the plan and the automatic merge.
-- Memory/Decisions, Memory/Questions
--   src/phantom_runtime.py: the statuses of decisions and questions and who may change them.
-- Memory/Links, Context, Lifecycle, Migration
--   src/phantom_runtime.py: `_fact_create` with `_fact_resolve_links` and
--   `_question_resolve_links`, `_build_subject_context`, `_subject_is_compressible`,
--   `_question_load`.
-- Memory/Answers
--   src/phantom_runtime.py: the answer context of a bucket (`_a26_...`), the timelines
--   (`_a27_...`), the latest activity and rank (`_a28_...`), the recommendations (`_a29_...`), the
--   dashboard (`_a30_...`) and the extracted status (`_b27_build_status_entry`). Texts compare as
--   lists of code points; `sort` is an insertion that keeps the order of equal keys.
-- Memory/Graph, Expansion, History
--   src/phantom_runtime.py: `build_subject_graph` with `_a32_build_edges`, the search
--   `_a34_collect_related_subjects`, the merging of items `_a34_dedup` and their order, and the
--   status history (`_b28_...`) with its verdict `_b29_check_consistency`. A weight is counted in
--   ten thousandths, the four decimals to which the code rounds it; `round4` is the rounding of a
--   quotient. The search runs for as many rounds as its depth says, as the loop does.
-- Gateway/Provider, Lines, Shell, Sessions
--   src/runtime: provider_router.py; the pipe reader and the event queue of transport_gateway.py;
--   cloud_run_shell.py with the table of open descriptors and the time that a teardown blocks;
--   `_process_request` and `_handler` of transport_gateway.py. A handler is a phase that a step
--   takes to the next one; `run_steps` is any interleaving of the steps of all handlers.
-- Client/Calibration, Bridge, Events
--   src/runtime_client: calibration.py, audio_bridge.py and typed_event.py (`TypedEventStore`).
-- Prelude
--   The names that all share.
-- Tests
--   Runs on concrete inputs, and the theorems at those inputs.
--
-- Texts that are only displayed are kept as the data they are formatted from. Scores are whole
-- numbers: percentages for the reliability, half percents for the trust score. The code computes
-- them in doubles; every score that the chain can reach either is exact there or is further from
-- each threshold than rounding leads. Times of the voice detection are counted in sample periods.
-- The clock, `uuid4`, `fromisoformat` and the Unicode tables are arguments. Loops are structural
-- recursion; the two bounded ones follow a chain of merges for the ten hops that the code has, and
-- what happens beyond is part of the results. Two threads share the voice buffer: a flush is its
-- request, the loop's answer and the drain, three calls that other calls may come between.
--
-- The reader of the pipe takes each line in one round of a loop whose rounds are bounded by the
-- bytes it holds, which are enough. Between two steps of a handler others may come, also where the
-- code runs on without a pause. What the operating system answers (pipes, processes, reads) is an
-- argument.
--
-- Not modelled: sockets and HTTP, the providers, speech and devices, the keyboard, files and the
-- environment, which are input and output around external services; of src/phantom_runtime.py, the
-- speech loop, the prompts and model calls, the graph of facts, the reports on consistency and the
-- reasoning over expanded contexts (for the memory files, reading and writing does not fail); of
-- src/runtime_client, the command line, the connection and the playback of replies.
pub mod Prelude
pub mod Value
pub mod Verification
pub mod Trust
pub mod Dashboard
pub mod Adapter
pub mod Pipeline
pub mod Audio
pub mod Client
pub mod Conversation
pub mod Gateway
pub mod Memory
pub mod Tests
