-- ===== src/Lib.antt =====
-- The inference server: its models' life, its requests, and the way from a queue to the executors.
--
-- A registry keeps the models by name. A model is loaded by a lifecycle, whose states are those of
-- a state machine. A loaded model has a scheduler: callers queue requests and wait for a promise,
-- workers take requests from the queue, put compatible ones into a batch, run it on the executor
-- that has the least to do, share out the response, and set the promises.
--
--   ModelState     src/ModelState.hpp, src/ModelStateMachine.hpp: states, transitions, observers
--   Lifecycle      src/ModelLifecycle.cpp: load, drain, unload and reload of a handle
--   Tensor         src/TensorBytes.hpp: datatypes and payloads
--   Request        src/Executor.hpp: tensors, requests, responses
--   Batching       src/BatchCompatibility.cpp (Compat), src/DynamicBatcher.cpp (Merge and Split)
--   Scheduler      src/Scheduler.hpp, src/SchedulerMetrics.hpp (Result); src/ModelScheduler.cpp: its
--                  executor pool (Pool), the shared state and submit (World, Submit),
--                  processBatch (Process), and the drain (Drain)
--   Llm            src/LlmScheduler.cpp: validation (Admission), submit (Submit), decode slots (Slots),
--                  a worker (Inference, Process) and its loop (Worker); src/Tokenizer.hpp (Tokens)
--   Registry       src/ModelRegistry.cpp, src/InferSnapshot.hpp: slots and snapshots (State), the critical
--                  sections (Operations) as steps of any threads (Steps), the readers (Queries)
--   Pipeline       src/PipelineConfig.cpp (Config), src/PipelineExecutor.cpp: the class (Executor) and
--                  makePipelineExecutor (Build); src/PipelineEnvelope.cpp (Envelope)
--   Retire         src/SchedulerRetireQueue.cpp: schedulers drained in the background
--   Errors         src/KServeErrors.hpp, src/RequestPipeline.hpp: statuses, and the stages of a request
--
-- Functions keep the names of the code in snake case. A check that throws or an access out of
-- range is a value: `refused` is a message that the code returns, `undefined` or `none` is a
-- fault. A size_t is a number below 2 ^ 64 and sums and products wrap around (`u64`). An int64_t
-- dimension is its bit pattern; a double is its bit pattern or, in Tensor, any type with the casts
-- as a parameter.
--
-- Threads: a worker's actions read the clock and the flags of requests, and before each reading
-- the other threads make a move that a list in the state gives: time passes, callers give up,
-- requests arrive, a drain starts. The moves are any list, so a theorem for every state is one for
-- every schedule of such moves. What an executor answers is a parameter, as are the factory of
-- executors and the constructors of schedulers that a lifecycle calls. The registry's threads are
-- a list of critical sections in any order, between which builds are made. Every loop modelled
-- goes over a list or counts down, but for a worker's, which has fuel: under a drain one round
-- more than there are queued requests is enough.
--
-- Not modelled: how a batch is formed and the loop of the tensor scheduler's workers around it;
-- sockets and gRPC, JSON codecs, logging and the text of metrics, the file system, real backends
-- and the built-in steps of pipelines, which are input and output or calls of libraries. Of the
-- JSON library, a pipeline's graph takes what its functions return as a parameter.
pub mod Batching
pub mod Errors
pub mod Lifecycle
pub mod Llm
pub mod ModelState
pub mod Pipeline
pub mod Prelude
pub mod Registry
pub mod Request
pub mod Retire
pub mod Scheduler
pub mod Tensor
