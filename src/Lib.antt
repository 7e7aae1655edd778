-- ===== src/Lib.antt =====
-- Heron reads mail over IMAP in date ranges, stores it in a vault, analyses each message with rules, and
-- raises alerts that a person works through. The program is src/heron; this library models its core.
--
-- The parts and their files:
--   Prelude, Result   shared names, lists as tables, sorting, and results that may be an exception
--   Text              the string operations that the modelled code calls
--   Timeutil          src/heron/core/timeutil.py
--   Models            src/heron/core/models.py: the rows, and the vault as the list of each table's rows
--   Coverage          src/heron/core/coverage.py: record_coverage, get_coverage, compute_gaps, get_gaps
--   Jobs              src/heron/core/jobs.py and src/heron/core/job_recovery.py
--   Strings           the methods of Python's str, and the searches of its re module, that rules use
--   Domains           src/heron/analysis/domains.py
--   Email             the records of src/heron/analysis/parser.py and extractor.py that rules read
--   Parser            src/heron/analysis/parser.py: join_capped, clean_filename, lower_domain
--   Extractor         src/heron/analysis/extractor.py: Defang has defang_* and refang, Ipv4 the addresses
--                     in loose notation, Html the handlers of _HtmlCollector, Urls the finding and the
--                     normal form of URLs, Gathering the dictionaries that extract_iocs fills
--   WebAddress        the pattern of web addresses that two rules share
--   Rules             src/heron/rules/base.py and registry.py; Rules.Attachments, Authentication,
--                     LinkText, DisplayName and ReplyTo are the rules of that directory, and
--                     Rules.Active is the list RULES
--   Scoring           src/heron/analysis/scoring.py
--   Alerts            src/heron/analysis/alerts.py
--   Storage           src/heron/core/storage.py
--   Analyses          src/heron/core/analysis_storage.py
--   Collector         src/heron/ingest/collector.py
--   Analyzer          src/heron/worker/analysis.py and src/heron/analysis/pipeline.py
--   Runner            src/heron/worker/runner.py
--   Activity          src/heron/analysis/activity.py and src/heron/core/activity_storage.py; Counting and
--                     Totals follow the loop, Window the widened range of rows
--   Api               src/heron/api: Ingest, Mailboxes, AlertRoutes, and Reading for jobs.py, stats.py
--                     and emails.py, Timeline for activity.py
--   Safe              src/heron/ui/safe.py: clean_text, escape_markdown, md_safe
--   Pages             src/heron/ui/fetch_logic.py and the moves of src/heron/ui/alert_logic.py
--
-- A request for a range becomes jobs for its gaps (Api.Ingest, Coverage, Jobs). The runner takes a
-- job, fetches its messages in batches through the collector, which stores them (Storage), sets the checkpoint after
-- each batch, and at the end records the coverage and starts the analyzer. The analyzer scores each
-- message (Rules, Scoring), and saves the analysis and the alert (Analyses, Alerts).
--
-- A definition has the name of the Python function or class, without a leading underscore. An SQL
-- statement is a function on the list of rows: an UPDATE is `update` with the WHERE clause as its test,
-- a SELECT is `select` and a sort, a new row's id is one more than the largest. A transaction that
-- raises changes nothing, so it returns an `err`; the collector, analyzer and runner commit many
-- transactions, so they return the store as well as what was raised. A stored timestamp is the number
-- of seconds that its text stands for, an instant is a number of microseconds.
--
-- Bounds and fuel: numbers are natural numbers without a limit, as Python's integers are; dates keep
-- the limits of Python's datetime. `chunked` has the number of its items as fuel, `analyze_pending` and
-- `reanalyze_stale` one more than the number of stored emails, since each round passes an email.
--
-- Parameters: the time zone database, the parser of Date headers, the email package, SHA-256, the
-- encryption, the file system, the IMAP server, the Unicode character database (`Strings.Unicode`) and
-- urllib's host of a URL, the calls that html.parser makes, and extract_iocs where the analyzer calls
-- it, which may raise. Regular expressions are functions by clauses that find the same matches. Not
-- modelled: extract_iocs and parse_email as a whole, the calls of the IMAP client, the encryption, the
-- rendering of the pages and the HTTP client, the set-up, and what the web framework does before and
-- after a route.
pub mod Prelude
pub mod Result
pub mod Timeutil
pub mod Models
pub mod Coverage
pub mod Jobs
pub mod Text
pub mod Strings
pub mod Domains
pub mod Email
pub mod Extractor
pub mod WebAddress
pub mod Rules
pub mod Scoring
pub mod Alerts
pub mod Storage
pub mod Analyses
pub mod Collector
pub mod Analyzer
pub mod Parser
pub mod Runner
pub mod Safe
pub mod Pages
pub mod Api
pub mod Activity
