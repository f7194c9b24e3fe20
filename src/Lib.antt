-- ===== src/Lib.antt =====
-- A model of the backend in Python that turns the analysis of a long video into clips and publishes
-- them, with the theorems that make its parts correct. Paths are from the repository's root.
--
-- The parts and their files:
--   * Base: Python's comparisons, texts as lists of code points, integers, stable sorting.
--   * Errors: `AppError` of backend/app/errors.py as its code, and `Result` for a call that returns
--     or raises one.
--   * Timecode: backend/app/clip_processing/timecode.py. The two regular expressions with `$` are
--     matched by hand, so that a last line feed passes as it does in Python.
--   * Schemas: the pydantic models of backend/app/schemas as records.
--   * Analysis: backend/app/json_validation: v1_0.py (Document), video_bounds.py (Bounds),
--     foreign_formats.py (Foreign) and validator.py (Validator). `json.loads`, pydantic's
--     `model_validate` and Python's text of a value are parameters.
--   * Jobs: the records of backend/app/jobs/models.py (Models), hashing.py (Hashing), the run of a job
--     with its clips in manager.py (Run), and `JobManager` (Manager), whose states are those that the
--     step relation of Manager/Reach reaches from the start.
--   * Ingestion: backend/app/video_ingestion: ssrf_guard.py (Host), remote_source.py (Remote) and
--     ingest_manager.py (Manager). The resolver, the HTTP client and yt-dlp are the record `Web`.
--   * Clip: the filter graph of backend/app/cropping, backend/app/watermark and
--     clip_processing/pipeline.py (Filters), the reading of ffmpeg's output in
--     ffmpeg_utils/runner.py (Progress), and the command line and run of a clip (Pipeline). ffmpeg,
--     ffprobe and the file system are parameters.
--   * Storage: identifiers and safe paths of backend/app/storage/paths.py. `Path.resolve`, which asks
--     the file system for symbolic links, is a parameter. Storage/Cleanup has the quota and the
--     clean-up of the same file.
--   * Output: the names of rendered clips, backend/app/output/naming.py (Naming), and the check of
--     a rendered file, validator.py (Check).
--   * Probe: backend/app/video_metadata/probe.py with `run_ffprobe` of ffmpeg_utils/runner.py. The
--     process, `json.loads`, `float` and `int` are the record `Ffprobe`.
--   * Retention: the sweep of backend/app/jobs/retention.py and backend/scripts/cleanup_expired.py.
--   * Routes: backend/app/api: routes_jobs.py (Jobs), the automatic queue, the report on the platforms
--     and the actions on an item of routes_publishing.py (Queue), and the uploads of routes_video.py
--     and routes_watermark.py (Uploads). What the handlers rely on is the record `Host`.
--   * Publishing: backend/app/publishing. Rows has the tables of backend/app/db/models.py and the
--     statuses; Scheduler, Metadata and Settings are queue_scheduler.py, metadata.py and the part of
--     config.py that the queue reads; Enqueue is `create_queue_from_job` and Manager the other
--     operations of queue_manager.py; Worker is worker.py; CostGuard is cost_guard.py,
--     AutoQueue auto_queue.py, and Providers meta_base.py with facebook_provider.py,
--     instagram_provider.py and youtube_provider.py. Oauth is the folder oauth: the state tokens, and the
--     callbacks of Meta and of YouTube with the accounts that they save. Lifecycle is the service as
--     a whole, in steps of these operations, and Machine the abstract machine of one item, whose
--     actions are logged by Lifecycle/Log and which Lifecycle/Refinement compares the service with.
--   * The modules named Examples run the theorems at concrete values, with the data of Samples.
--
-- How the parts interact: a video comes in by Ingestion or by an upload of Routes, and Probe reads
-- its measures; a document passes Analysis, and its clips become the clips of a job of Jobs, which
-- runs Clip on each and has Output check the file. Enqueue queues the finished clips with the dates
-- of Scheduler below the job's directory of Storage, and Worker claims the due items and publishes
-- them with Providers, under the accounts that Oauth saved, while Manager serves the user's requests
-- on them. Routes starts jobs and the queue from a request, and Retention sweeps what is old.
--
-- State is explicit. The database is a record of three tables, beside
-- which the state tokens of Oauth are a list; each operation is one session that
-- takes the database and gives it back, and only `create_queue_from_job`, which flushes and rolls
-- back in the middle, has a record for the session itself. What the worker meets outside its code
-- (the clock, files, ffprobe, the platform, and what other tasks commit while the platform is
-- awaited) is the record `Round`. Dates are seconds and the length of a video is in microseconds.
--
-- The manager of jobs takes one call between two awaits as a step; the run of a job is followed to
-- the end of all its clips, an exception of a clip goes by the order of the clips, and a cancellation
-- in the middle is the ending `interrupted` of a call.
--
-- Fuel: `run_worker_cycle` recurs on fuel, one unit for a round; its theorem says how much is
-- enough. `digits_before` recurs on the number itself, as many rounds as it could need. `follow` of
-- Ingestion, `wait_for_job` of Publishing/AutoQueue and `poll_status` of Publishing/Providers/Instagram
-- recur on the rounds that the source's own loops count.
--
-- Not modelled: the cipher of token_crypto.py and the client libraries of Google, which are parameters;
-- the loops that poll or sweep for ever; hashes of bytes; the content of metadata files; the texts of
-- an `AppError`; routes_analysis.py, the redirects after OAuth, the text of an authorization URL, the
-- set-up of the application and the frontend. `_consume_state` is one transaction here, so that two
-- callbacks inside it at once are not modelled. `created_at` and `updated_at` of a queue item are
-- never read and are left out. CPython's limit on the digits that `int` reads is left out.
pub mod Base
pub mod Errors
pub mod Storage
pub mod Jobs
pub mod Schemas
pub mod Timecode
pub mod Analysis
pub mod Publishing
pub mod Examples
pub mod Output
pub mod Clip
pub mod Ingestion
pub mod Routes
pub mod Probe
pub mod Retention
pub mod Samples
