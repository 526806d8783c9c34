-- ===== src/Lib.antt =====
-- A verification library for el-sca-ansamble, a set of containers and Python modules that keep the
-- vulnerability databases of several scanners up to date, run the scanners over a target, filter
-- and compare their findings, and follow the run in a job with a checkpoint file.
--
-- The parts, and the files that model them (paths below resilient_updates/):
--   SourcePolicy     source_policy.py: the candidate sources of a database layer, in the order in
--                    which they are tried.
--   Fallback         fallback.py and _retry.py: the attempt loop over those sources. The downloader
--                    and the sleep are parameters over a state of the outside world.
--   ProxyChain       proxy_chain.py: proxy chains, the checks of their configuration, the cache of
--                    health states, and the choice of a chain for a source. The clock and the HTTP
--                    client are parameters; the clock counts tenths of a millisecond.
--   RoutePlan        route_plan.py: the egress that a tool's updater is given, and the file
--                    route-plan.env.
--   UpdateDoctor     update_doctor.py, with the routes of a container and the plan of route_plan.py:
--                    the routes that exist, the sources that each reaches, and the choice. The
--                    connections, the answers and what urlparse reads are parameters.
--   AtomicPublish    atomic_publish.py: the promotion of a new database directory. A path holds a
--                    tree or nothing, no path lies inside another, and every system call takes
--                    the next of a list of faults.
--   PipelineState    pipeline_state.py: the checkpoint file of a run. The clock, the normalisation
--                    of paths and the digest are parameters.
--   Orchestrator     orchestrator.py: the class Job. What the regular expressions read in a log
--                    line is part of the line; a subscriber's queue stays in the job's list.
--   CollisionFilter  collision_filter.py: the filters that drop false findings of cve-bin-tool, and
--                    the summary of what they dropped.
--   Sbom             sbom_ingest.py: the SBOM documents of a delivery, merged with that of the run.
--                    A file carries what reading it gives; Python's text of a list or a mapping is
--                    a parameter.
--   ScannerDiff      scanner_diff.py, with first_json and normalize_severity of _io.py: what changed
--                    between two runs.
--   Extraction       extractor.py: the unpacking of nested archives into one output tree. A member
--                    carries what the archive library says of it; what unpacking an archive does
--                    may depend on all the archives taken before.
--   Prelude          lists, numbers, text, dictionaries and sorting, as Python has them.
-- Sources of SourcePolicy are what Fallback tries, and what ProxyChain chooses a chain for; a
-- fetched tree is what AtomicPublish promotes. The others work on the files of a finished or
-- running scan.
--
-- Python's mutable objects are records that an operation takes and returns. Exceptions are
-- constructors of a result. Sets are lists without repetitions, dictionaries are lists of pairs in
-- the order of insertion. Letter case is that of ASCII. Loops are structural recursion on the list
-- they walk; the attempt loop recurses on the rounds that are left, of which there are
-- `retry_count + 1`, as in the source. The queue of archives has fuel for as many passes, and some
-- amount is proved to be enough; so has the walk over nested components, one for each
-- value it meets.
--
-- Not modelled: the HTTP, YAML, SQLite and archive libraries, and the files that external tools
-- unpack; the reports, the dashboard and the command line, which render or launch what is modelled
-- here; the threads around a job, whose operations hold its lock, so that they happen one after the
-- other; the xray configuration of route_plan.py; and run_summary.py, vex.py and the feed import.
mod Prelude
pub mod AtomicPublish
pub mod CollisionFilter
pub mod Extraction
pub mod Fallback
pub mod Orchestrator
pub mod PipelineState
pub mod ProxyChain
pub mod RoutePlan
pub mod Sbom
pub mod ScannerDiff
pub mod SourcePolicy
pub mod UpdateDoctor
mod Tests
