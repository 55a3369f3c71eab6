-- ===== src/Lib.antt =====
-- parser-go: a service that analyses web server logs.
--
-- A client posts a log to the HTTP service (internal/api). The service stores a job (internal/job)
-- and queues it; a worker runs the analysis engine (internal/analysis) on the log, computes the summary
-- (internal/summary) and keeps it in the job's workspace, where the status, summary and report
-- endpoints find it. Finished jobs expire after a retention time. The benchmark harness
-- (internal/bench) compares two implementations of the analysis on the same log.
--
-- Which file models what:
--   Prelude       native numbers, texts as lists of bytes, maps as association lists, sorting
--   Clock, Float  time.Time as an instant, float64 as an interface of the operations used
--   Job           internal/job/job.go: State, Job; Job/Store: the methods of Store; Job/Laws and
--                 Job/Updates: their laws
--   Analysis      internal/analysis/engine.go: Line (combinedLogRegex), Timestamp (the layout), Entry
--                 (parseCombinedLog, shouldFilter), Scanner (bufio.Scanner), Engine (NewEngine,
--                 Analyze, AnalyzeBytes); Line/Pattern states the expression as a relation;
--                 Accounting, Bounds and RoundTrip hold the theorems
--   Summary       internal/summary/summary.go: Counts, Rank and Compute; Ranking holds the theorems
--   Api           internal/api/analysis_handler.go: Http (requests and responses), Names (IDs, formats,
--                 messages), Filename (validateFilename), Handler (the state), Jobs (the queue,
--                 idempotency, expiry), Process (processJob, failJob), Submit (handleAnalyses down to
--                 createAndRunJob), Detail (the endpoints that read); Works, Invariant and World state
--                 what the service keeps and its steps, Pool, Lifetimes and Started its runs; Expiry,
--                 Due, Forgetting, Lifecycle, Endings, Admission, Admitted, Upload, Progress, Answers,
--                 Found, Idempotency, Texts and Paths hold the theorems
--   Api/Reports   internal/api/report_handler.go: Pages (the handlers and what their pages show), Charts
--                 and Lines (the two charts), Labels (truncateLabel, formatBytes and the like), DetailBody
--                 and Bodies (the texts of the pages), Runes (Go's runes and UTF-8); Utf8, Truncation,
--                 Bars, Shares, Index, Agreement, Marks, Renamed and Markup hold the theorems
--   Bench         internal/bench: Types (types.go), Parity (CompareOutputs), Controls
--                 (ValidateFairness), Rounds, Keys and Evidence (fairness_runtime.go), CrossCheck (the
--                 comparisons of crosscheck.go), Corpus (AnalyzeCorpus of analyze.go), Placeholders
--                 (expandString and expandKnownString of run.go); Fields, Agreement, Claims, CrossChecks,
--                 Capped, SameLog and Expansions hold the theorems
--   Release       internal/releasecandidate/releasecandidate.go: Filter (filterTrackedFiles, includePath,
--                 exclusionRules); Files holds the theorems
--   Checks        concrete runs
--
-- How the code corresponds. A Go string or byte slice is its list of bytes; an int that the program
-- only counts up is a natural number, one that a setting or a file gives is an integer. A method that
-- changes the Handler takes the handler and returns the new one. The clock's readings, the job ID of
-- generateJobID, SHA-256, float64, the printing of errors and the order of a map's iteration are
-- arguments. A dereference of a nil pointer is the result `none` of the endpoint.
--
-- The workers that startWorkers starts and the requests interleave: Api/World has a step relation whose steps are a request
-- that submits or reads, a change of readiness, a worker that takes a job and a worker that ends
-- one. Each step is atomic. In the program a step's parts are under separate locks (store, workspaces,
-- keys); the steps between which a worker runs for long, taking a job and ending it, are apart. A
-- submission's job ID is not in use, which generateJobID does not guarantee within one nanosecond.
--
-- Loops are structural recursion on the list they run over. format_int divides by ten with fuel n + 1,
-- which its round trip shows to be enough. expandString and expandKnownString loop on fuel, one more
-- than the opening braces of the text; Bench/Expansions shows that it is enough where no placeholder's
-- value has such a brace, without which the loop of the program need not end.
--
-- Not modelled: the heads of the report pages with their style sheets and the printing of a time in the
-- machine's time zone (internal/api/report_handler.go), the page of generateReportHTML, the rest of the
-- benchmark harness (its processes, its HTTP client, the reading of a page by regular expressions, the
-- files of a bundle), the writing of the release archive, the commands and the server, logging, and the
-- text that is written for a response's JSON.
pub mod Prelude
pub mod Clock
pub mod Job
pub mod Float
pub mod Analysis
pub mod Summary
pub mod Api
pub mod Bench
pub mod Release
pub mod Checks
