-- ===== src/Lib.antt =====
-- Verification of the Odoo developer toolkit: the access pipeline of internal/acl with the service that
-- runs it, and the sampling, aggregation, error grouping and sending of events in internal/agent.
--
-- The pipeline explains whether a user may perform an operation on an Odoo record. A user and the
-- effective groups are resolved, `ModelACLChecker.Check` reads the ir.model.access rules of the model,
-- `RecordRuleFinder.Find` picks the ir.rule records that cover the operation, and
-- `DomainEvaluator.Evaluate` parses the domain of each rule that applies and evaluates it on the
-- record. A domain is a text in the syntax of Python lists: internal/acl/domain lexes it, parses it
-- and builds a tree out of the prefix operators. `aclPipeline.run` calls the stages in this order,
-- leaves at the first one that denies or fails, and asks `SuggestionGenerator` for fixes of a denial.
--
-- On the agent's side, collectors read errors out of Odoo's log, give each a signature by which the
-- server groups them, and put them in a ring buffer; the flusher drains it, posts the batch and pushes
-- the events back when the post fails. Other events go to the aggregator, which keeps statistics for
-- each model and method, keeps those raw events that the sampler lets through, and sends a batch per
-- window. A rate limiter drops batches beyond a limit per minute. On the server, lists are paginated.
--
-- Files, with the code that each one models:
--   Prelude            Boolean tests, lists, Go integers (Prelude/Int) and strings (Prelude/Text)
--   Domain/Token, Domain/Ast    internal/acl/domain/token.go and ast.go
--   Domain/Lexer       internal/acl/domain/lexer.go: `lex` is Lex, `lex_next_token` lexNextToken, and
--                      so on; the lexer's state is the rest of the source, the position and the tokens
--   Domain/Parser      internal/acl/domain/parser.go: `parse` is Parse; the parser's state is the list
--                      of the tokens left. Parser/Grammar is the grammar that it is held against, in both
--                      directions
--   Domain/Tree        buildTree, insertImplicitAnd and consumeNode of the same file
--   Acl/Types          internal/acl/types.go
--   Acl/Any            the dynamic values of Odoo records, and `%v`
--   Acl/Resolve, Acl/Compare, Acl/Like, Acl/Evaluate    internal/acl/domain_evaluator.go
--   Acl/Users          internal/acl/user_resolver.go
--   Acl/Groups         internal/acl/group_resolver.go
--   Acl/ModelAcl       internal/acl/model_acl_checker.go
--   Acl/RecordRules    internal/acl/record_rule_finder.go
--   Acl/Suggestions    internal/acl/suggestion.go; a fix is a constructor with the values in its texts
--   Acl/Pipeline       internal/service/acl_service.go: `run` is aclPipeline.run, and each `after_...`
--                      what it does with the result of a stage
--   Ringbuf            internal/agent/ringbuf/ringbuf.go
--   Errors/Signature   internal/agent/errors/signature.go; `frameRe` is `match_frame`
--   Errors/Exceptions  internal/agent/errors/event.go: the types of errors
--   Errors/Flusher     internal/agent/errors/flusher.go: `flush` is Flush, with the events that are
--                      pushed during the request as an argument, and `run_loop` is RunLoop over ticks
--   Errors/Collector   internal/agent/errors/collector.go: `poll` and `run_poll_loop`, with the search in
--                      Odoo as an argument
--   Agent/Sampler      internal/agent/sampler/sampler.go
--   Agent/Stats        internal/agent/aggregator/types.go, and the statistics of a window
--   Agent/Aggregator   internal/agent/aggregator/aggregator.go: `ingest`, `flush` and `run`
--   RateLimiter        internal/agent/transport/ratelimiter.go
--   Agent/N1Tracker    n1Tracker of internal/agent/hook/ormcollector.go
--   Acl/Fields         internal/agent/collector/recordfetcher.go: the fields that the rules need, and
--                      the fetch of a record, with the call of Odoo as an argument
--   Migration          internal/migration/deprecations.go: PathBetween and the other filters of the
--                      table of rules, which is an argument
--   Migration/Schema   internal/migration/scanner.go: `scan` is Scan, on the decoded JSON
--   Migration/Source   internal/migration/codescan.go: findings; Migration/Source/Files has
--                      `scan_source`, ScanSource, with the regular expressions as a record Patterns
--   Worker             internal/worker/notification.go and its queries in db/sqlc/alerts.sql.go: `run`
--                      is Run over polls, resets and new deliveries
--   Middleware/RateLimit  internal/middleware/ratelmit.go: `allow` is Allow, `run` the requests and the
--                      ticks of cleanup one after another
--   Agent/LogTailer    internal/agent/hook/traceback.go and logparser.go: `feed` and `flush` are those of
--                      the accumulator, `tail_file` the polls of the tailer
--   Service/ComputeChain  internal/service/profiler_service.go: `build_compute_chain_from_events` is
--                      BuildComputeChainFromEvents before its result is encoded
--   Pagination         internal/dto/pagination_dto.go: NewPagination, ToMeta and the query parameters
--   Examples           the theorems at concrete inputs
--
-- Bytes are natural numbers, Go strings lists of them, `int` and `int64` are integers. Maps are
-- association lists. An error is a value of a result type, with a constructor for each message of the
-- source. Floating-point numbers, their parsing and printing, and the case mapping of strings outside
-- ASCII are not defined: Acl/Host is a record of the operations used, which the definitions take as a
-- parameter; the parser takes `strconv.ParseFloat` alone. In the same way Errors/Signature takes the
-- patterns of `normalizers`, the hash and Unicode white space as a record Library, Errors/Flusher the
-- server and `json.Marshal` as a record Server, and Agent/Sampler the drawn number and the case mapping
-- as a record Host.
--
-- Fuel: the lexer's loop has one unit more than the source has bytes, and each round consumes a byte;
-- the parser's values have two units for each token, since a list takes one step for its bracket and
-- one for each item; `consumeNode` has one unit more than there are elements; the
-- search through implied groups has a round for each direct group and each implied id. When fuel runs
-- out the model answers with an error `out_of_fuel` of its own, which no error of the source is taken
-- for. The loop of `NormalizeMessage` takes a number of rounds and gives none when it has not ended.
--
-- Not modelled: the texts of reasons and errors, locks (a locked call is one step), the other services,
-- the handlers, database, cache and transport around these parts, and the programs of cmd.
pub mod Prelude
pub mod Ringbuf
pub mod RateLimiter
pub mod Errors
pub mod Agent
pub mod Pagination
pub mod Migration
pub mod Worker
pub mod Middleware
pub mod Service
pub mod Domain
pub mod Acl
pub mod Examples
