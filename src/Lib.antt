-- ===== src/Lib.antt =====
-- OpenJourney, a customer engagement platform: its decisions on journeys, audiences, feature flags,
-- experiments, deliveries and publications. A journey is a graph of nodes that a profile moves through. Publishing validates the
-- graph; a worker claims the due steps of runs one at a time, executes the step's node against the
-- store, and writes the run's new state with the next step. Split, message and feature flag nodes
-- ask the experiments and the flags for a variant; AI decisions and extension nodes ask an outside
-- service for a branch. An audience is a condition in JSON: journeys and flags ask if one profile
-- matches it, and segments compute the set of those that do, both through SQL that one compiler writes.
--
-- Experiment.antt: internal/experiment/assign.go, `BucketOf` (bucket_of) and `Assign` (assign). The
--   arithmetic on `uint64` is written out modulo 2 ^ 64.
-- Flags.antt: internal/flags/evaluate.go, `Evaluate` (evaluate), by its loop over the targeting
--   rules (target) and its rollout (rollout, serve).
-- Json.antt, Json/Float.antt: the part of encoding/json that the program relies on, down to the folding
--   of keys and what a null does to a field, and its float64: the literals that are out of range, and
--   the rounding of whole ones. A literal with a fraction or an exponent stands for the float64
--   nearest to it.
-- Journey/Graph.antt, Journey/Config.antt: internal/journey/graph.go and the configurations of
--   internal/journey/nodes.go, `DecodeConfig` (decode_config) and `findNextNode` (find_edge).
-- Journey/Schedule.antt: internal/journey/enroll.go, `validateSchedule` and `isScheduledDue`.
-- Journey/Reachable.antt, Journey/Outgoing.antt, Journey/Validate.antt: internal/journey/validate.go,
--   `reachableNodes`, `validateOutgoing`, `validateExactBranches`, `validateDurations` and `Validate`,
--   each by the model's function of the same name in snake case.
-- Journey/Runs.antt, Journey/Store.antt: the records of internal/domain/domain.go, and what an
--   execution asks of internal/ports/store.go, of the gateway and of the extension host. A call takes
--   the world, which is any type, and returns an answer or an error; a query leaves the world as it is.
-- Journey/Choose.antt, Journey/Message.antt, Journey/Execute.antt: internal/journey/nodes.go,
--   `execute`, by node type. An execution is a function of the world, and an error keeps the changes
--   that the calls before it made.
-- Journey/Runtime.antt: internal/journey/runtime.go, `TickNext` (tick_next), whose ends are settle
--   and finish, and `failStep` (fail). Journey/Parse.antt: `ParseGraph` of internal/journey/nodes.go (parse_graph).
--
-- Audience/Ast.antt, Audience/RawNode.antt, Audience/Parse.antt: internal/audience/ast.go and parse.go,
--   `Parse` (parse) and `toNode` (to_node).
-- Audience/Sql.antt, Audience/Compile.antt: internal/audience/compile_pg.go, `compileProfileNode`
--   (compile_node), `CompileProfile` (compile_profile) and `CompileProfileRows` (compile_profile_rows),
--   and `CompileProfileSingle` of evaluate.go (compile_profile_single). The compiler gives a tree of SQL,
--   and `render` its text: words and numbered placeholders, which the single query moves in the text.
--   Audience/Truth.antt is the independent meaning of a condition: SQL's three truth values, for any
--   database. Audience/Reading.antt reads the text of a query word by word, with the precedence of NOT,
--   AND and OR, its parentheses and its placeholders.
-- Audience/Matches.antt, Audience/Segment.antt: internal/audience/evaluate.go, `Matches` (matches), the
--   queries of compile_ch.go, `EvaluateAudience` of internal/postgres/journey_runtime.go
--   (evaluate_audience) and `resolveSegmentIDs` of internal/postgres/segments.go (resolve_segment_ids).
-- Delivery/Policy.antt, Delivery/QuietHours.antt, Delivery/Sms.antt: internal/policy/policy.go,
--   `Evaluate` (evaluate_policy), internal/journey/quiethours.go, `IsInQuietHours`
--   (is_in_quiet_hours), and internal/render/sms.go, `AnalyzeSMS` (analyze_sms).
-- Publishing.antt: internal/publishing/publishing.go, `Publish` (publish_resource), and `Publish` of
--   internal/journey/publish.go (publish_journey).
-- Stages.antt: internal/stages/stages.go, `Apply` up to the rule of each profile (assign_stages).
--
-- Proofs stand in child modules named for what they prove, tests and witnesses in Examples.
--
-- Fuel is used three times. The search for reachable nodes has one round for the entry and one for each
-- edge, which is enough since every round but the first takes an id that some edge put in the queue.
-- The parser of audiences, which calls itself on parts of its message, has as much as the message is
-- deep. The rounding of a whole number to the 53 bits of a float64 tries exponents up to 971, which is
-- enough for any number below 2 ^ 1024.
--
-- Parameters: SHA-256, as the first eight bytes of a text's digest; `time.ParseDuration`; the store,
-- the gateway and the extension host; the audience evaluator of flags; the databases of audiences and
-- segments, the blob store and the commit of a version, JSON encoding, time zones and the calendar. A time is a number of
-- nanoseconds that does not wrap. The numbers of a JSON state that a split rewrites keep their text,
-- where the program reads them as floating-point numbers. Logs, counters, contexts and their
-- deadlines are left out.
--
-- Not modelled: the database, the HTTP interface and the network clients, which are input and
-- output; the paging of a segment's profiles; enrolment, the delivery of intents, templates, scoring
-- and the events of stages.
pub mod Common
pub mod Json
pub mod Experiment
pub mod Flags
pub mod Audience
pub mod Delivery
pub mod Publishing
pub mod Stages
pub mod Journey
