-- ===== src/Lib.antt =====
-- click-dog reads ClickHouse's span log, filters and enriches the spans, and exports them to one or
-- more tracing backends. This library models the parts that decide what is exported, when and by
-- which instance.
--
-- How the parts interact: a cycle of the processor (internal/processor) asks the export gate
-- (export_gate.go), which asks the leader election (internal/leader), and the circuit breaker
-- (internal/resilience) whether to run; it fetches a page of spans from the reader, resolves users
-- and client addresses through query_log rows, filters (internal/filter), and exports in batches to
-- the fan-out (internal/export), whose answer says which spans are marked as seen and whether the
-- reader's walk moves on (internal/clickhouse). The adaptive poller (internal/resilience) sets the pace
-- of the cycles. Apart from the cycles, an analysis of query_log clusters the exact groups of queries
-- into families (internal/queryfamily).
--
-- Which file models what:
--   Model               internal/model/types.go: spans, rows, results; error values
--   Resilience/Breaker  internal/resilience/circuitbreaker.go: CircuitBreaker, Allow, RecordSuccess,
--                       RecordFailure
--   Resilience/Poller   internal/resilience/backoff.go: AdaptivePoller, RecordFailure, RecordSuccess
--   Export/Multi        internal/export/multi.go: NewMultiExporter, ExportSpans, ExportQuery, Close
--   Leader/Znodes       internal/leader/election.go: znodeSeq, sortBySeq
--   Leader/Election     internal/leader/election.go: checkLeadership, getWatchTarget, Resign,
--                       failOpen, handleDemotion, createCandidate; Election/Rejoin: rejoinWithRetry;
--                       Election/Interleaving: checkLeadership beside Resign
--   Leader/Election/Gate  export_gate.go: newLeaderGate
--   Filter              internal/filter/filter.go: ShouldFilter, ShouldFilterUser,
--                       ShapeQueryForExport; Filter/Shape: ShapeSpanForExport
--   Processor/Addresses internal/processor/enrichment.go: users and client addresses
--   Processor/Live      internal/processor/live.go: the loop of fetchAndProcessSpans over a page
--   Processor/Fetch     internal/processor/live.go and enrichment.go: fetchAndProcessSpans from the
--                       fetch on, ResolveTraceAddressesFromSpanLog
--   Processor/Pipeline  internal/processor/pipeline.go, live.go, canary.go and server_version.go:
--                       Process and its handlers, the canary, the version stamp
--   Processor/Backfill  internal/processor/backfill.go: ProcessQueriesBatch,
--                       ReportBackfillOutcome; Processor/Export: ExportSpansWithDeadline,
--                       ExportQueryWithDeadline
--   Reader/Walk         internal/clickhouse/reader.go: FetchLiveSpans, CommitLiveSpans; Walk/Pages says
--                       what the server's pages hold, Walk/History runs fetches and commits
--   Family/Tokens       internal/queryfamily/rollup.go: tokenizeSQL, readQuotedIdentifier
--   Family/Tables       the same file: extractTables; Family/Features: ExtractFeatures
--   Family/Similarity   the same file: Compare, ShouldMerge; Family/Preview: TruncatePreview
--   Family/Stats        the same file: aggregateStats; Family/Rollup: Rollup and the clustering
--   Metrics             internal/metrics/metrics.go: recordCycle, the breaker's and leader's gauges
--   Common              lists, sets, maps and numbers that the parts share
--   Tests               each theorem at a concrete input
--
-- State is passed explicitly: a method that locks and mutates is a function from the record to the
-- record. Go's maps are association lists, its errors values, its times natural numbers of
-- nanoseconds; the event time of a row and the poller's interval, whose float64 product may leave
-- int64, are signed.
-- What is not in this repository is an argument: the LRU cache, regexp, netip, url and float64,
-- the exporter's answers, what the span log's server answers to a page, and what Keeper answers. The
-- Unicode tables are an argument, as is the order in which Go hands out a map's entries.
--
-- The election's goroutine runs one operation after the other, and a resignation runs beside it: in
-- the rejoin loop it can fall at each point where the lock is free, and Election/Interleaving takes
-- checkLeadership apart into its accesses of the leader flag, which the lock does not guard, with any
-- order of these and of the two accesses of Resign. Elsewhere a check is one operation: one that no
-- resignation comes into.
--
-- Loops are structural. The split of a page into batches takes as many turns as there are spans, which
-- is enough since a turn takes one at least. The rejoin loop runs against a script of attempts and says
-- so when the script ends before it does. The forward walk has the eight turns of the source. The
-- tokenizer takes as many turns as the query has runes, and the search for tables as many as there are
-- tokens: each turn takes one at least.
--
-- Not modelled: the reader's SQL and its other fetches, the attributes that enrichment writes, the
-- compilation of a filter's patterns, the heartbeat, the per-sink counters, health, analysis, configuration files, the commands
-- and the deployment. Logging is left out everywhere.
pub mod Common
pub mod Model
pub mod Resilience
pub mod Export
pub mod Leader
pub mod Family
pub mod Filter
pub mod Metrics
pub mod Processor
pub mod Reader
mod Tests
