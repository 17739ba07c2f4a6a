-- ===== src/Lib.antt =====
-- Verification of the fine-tuning worker of the ml-platform: jobs that the backend creates in
-- Postgres are claimed from Redis, gated, trained and stored, and a reconciler puts back what got
-- lost. Beside the worker stand the scripts that register models and datasets.
--
-- The parts, and how they interact. Paths are below ml-platform/; W is worker/crucible_worker.
--   Base        shared names; texts are lists of character codes; lists, counts and their lemmas.
--   Effects     Python code that changes a state and may raise: `Exec`, with attempt for try/except,
--               finally for try/finally and `with`, and a killed process, which runs no handler.
--               Rules and Runs hold the reasoning about such code.
--   Schema      shared/schema/job.py: JobStatus, Hyperparameters, Job. Schema/Uuid writes out str(u)
--               and UUID(text); an id is the integer of its UUID.
--   World       the state that is shared: the tables jobs and models, the lists jobs:queue and
--               jobs:processing, the status hashes, the clock. `service` is one call of Postgres or
--               Redis: one transaction, one command or one pipeline, which is atomic.
--   Queue       W/redis_queue.py, RedisQueue.
--   Status      W/status.py, StatusPublisher.publish.
--   Guardrail   W/guardrail.py, and vram_hint_for of scripts/register_model.py.
--   Repository  W/db.py and W/repository.py: every method of PostgresJobRepository. Table and Rowwise
--               are for relations on the table of jobs; Lifecycle is the machine of a job's status,
--               apart from the code, which a call takes a row along; Results is what holds of the table at all times.
--   Paths       pathlib.PurePosixPath's name and suffix, and the methods of str that are used.
--   Validation  W/validation.py, and _is_single_file of W/dataset_store.py.
--   Stores      the rest of W/dataset_store.py, and W/checkpoint_store.py, over an S3 client and a
--               file system as parameters.
--   ModelCache  W/model_cache.py: HFModelCache.ensure over the hub's download.
--   Trainer     W/trainer.py: what a local dataset is loaded as, and the order of the fine-tune, over
--               the GPU stack as a parameter.
--   Executor    W/executor.py: CachingExecutor over its seams, StubExecutor. Executor/Whole fills the
--               seams as run of W/main.py does, with the model cache, the stores and the trainer;
--               Executor/Uploads is what stands behind a result of it.
--   Processor   W/processor.py: process is split where its early returns are (dispatch, handle,
--               execute); _run is run with its gates in preflight and its end in finish.
--               Processor/Outcome says what a processed job leaves behind.
--   Calls       what each call does when nothing goes wrong.
--   Reconciler  W/reconciler.py.
--   Main        W/main.py: run, the loop and its body. In Processor, Reconciler and Main the module
--               Good carries a property of each call over to the whole code; Tables uses it.
--               Main/Drained is the loop on a queue of jobs, Main/Recovers a start after others have
--               gone, Main/Crashed a worker that dies in a claim, Main/Moves what a run is made of.
--   Launcher    W/launcher.py: the worker processes, one for each GPU, and their supervisor.
--               Launcher/Started is main of W/main.py.
--   Config      W/config.py: load over an environment.
--   Registry    scripts/register_model.py and scripts/register_dataset.py on their tables.
--               Registry/Content is the checksum, the storage path and the upload of a dataset, and
--               the main of register_dataset.py;
--               Registry/Models is the main of register_model.py.
--   Tests       the theorems at concrete inputs.
--
-- What may happen around the worker. The schedule of a World holds one event for each call to come:
-- time passes, others act, and the call is served, refused, served with its reply lost, or the process
-- is killed before or after it. The others are the backend, which inserts a job, pushes its id,
-- cancels it, takes its id off the queue (all that backend/internal/handler/jobs.go does to this
-- state: the transition that it tries when an enqueue fails is always refused), and other workers, one
-- call at a time: they claim, ack and requeue ids, move jobs on, and publish. Past the end of the
-- schedule every call is served. A theorem without a condition on the schedule holds for every
-- schedule; `IsCalm` says that the schedule is empty.
--
-- Bounds. The loop of `run` is by recursion on the list of answers of stop.is_set(); the list is as
-- long as the loop runs, so no fuel is chosen, and a theorem about the loop holds for each length.
-- The supervisor's loop runs on fuel, one for each pass over the processes; more passes than the joins
-- that they may still live suffice. The loop that hashes a file runs on one more than its length.
-- All other loops are over lists. `claim` on an empty queue answers nothing after its timeout,
-- queue_block_seconds; a push that ends the wait before is an action of others at the call, and the
-- wait the time of that event. A timeout of zero, with which Redis waits for ever, is not modelled.
-- Every other call takes the time that the schedule gives it, and none past its
-- end. Ids are bounded by
-- 2 ^ 128 where their text is read back. Numbers are Python's, without a bound. Settings of the
-- loop are taken as not negative; `load` reads a negative one as Python does.
--
-- Left out. Log lines and the texts of messages (a message keeps what it is made from). Digits,
-- spaces and letter case outside ASCII. The RFC 3339 text of a time. The values of hyperparameters,
-- which the worker passes on unread. huggingface_hub, boto3, hashlib and the GPU stack are parameters:
-- their calls may act on the world in any way that a theorem's hypotheses allow. In the launcher a
-- signal, or the exit of a child, comes while the supervisor waits in a join; a child that was asked
-- to end lives for a number of joins that is its own; what it runs first, _run_pinned, is left out. In the two scripts, the command line, what is
-- printed, and a failure of a database call. A set is a list.
pub mod Base
pub mod Effects
pub mod Schema
pub mod World
pub mod Queue
pub mod Status
pub mod Guardrail
pub mod Repository
pub mod Paths
pub mod Validation
pub mod Stores
pub mod ModelCache
pub mod Trainer
pub mod Executor
pub mod Processor
pub mod Calls
pub mod Reconciler
pub mod Main
pub mod Launcher
pub mod Config
pub mod Registry
pub mod Tests
