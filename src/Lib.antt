-- ===== src/Lib.antt =====
-- argis-extensions, the Go extension layer of the Bifrost LLM gateway.
--
-- The program is a set of plugins and services around the gateway. A request passes the hooks of the
-- plugins; each plugin can be wrapped in a circuit breaker. The plugins decide which model a request
-- goes to, learn from what came back, and fold the conversation into a token budget. Their settings
-- come from a configuration that is validated, versioned and reloaded while the program runs, and
-- their keys from a chain of accounts. The components are modelled one by one, each in the modules
-- of its name.
--
-- CircuitBreaker models infra/circuitbreaker/circuitbreaker.go. The record CircuitBreaker is the Go
-- struct; new, transition_to, allow_request, record_success, record_failure, reset, get_stats and
-- execute are the methods. A reading of the clock is an argument, in nanoseconds; the calls of
-- OnStateChange are a list in the record. Counters are Go's 64-bit int, whose increment wraps (inc).
-- CircuitBreaker.Interleaved has a second model, for goroutines that share a breaker: each access to
-- a field is a step, and the promotion of an open breaker, which the source runs with no lock, has
-- its steps between those of the code under the lock. Accesses are sequentially consistent there.
-- What holds at each place is in .Held, that promotions keep it in .Promoted, the invariant in .Bounded, the agreement with the first model
-- in .Alone, and a promotion that comes late in .Stale.
-- CircuitBreaker.Wrapper models infra/circuitbreaker/plugin_wrapper.go, around a plugin that is a
-- parameter.
-- Config, with Config.Validation and Config.Fields, models config/config.go and
-- config/validation.go. Validate appends to a list of errors; ValidateField walks the struct by reflection, here a table of its
-- fields. strings.ToLower and strings.Title are parameters.
-- Config.Versioning models config/versioning.go; SHA-256 and the print of a number are parameters.
-- Config.HotReload models config/hotreload.go, the loop of watch over the events of its channels. The
-- debounce delay is the source's 500 ms; what viper reads is part of the event.
-- Config.Secrets models config/secrets.go: the cache of secrets in front of the environment, and their
-- encryption over AES-GCM, PBKDF2 and base64 as parameters (Crypto, Random).
-- Learning models plugins/learning. Learning.Tiered is tiered.go: a scope is an entry of a map (.Record
-- and .Prefer below it for RecordEvent and GetPreferredModel); a panic on an unknown scope is none.
-- Learning.Profiles is model_profile.go, with RecordObservation in .Store; Learning.Optimizer is
-- optimizer.go, with scoreModel in .Scores, RankModels in .Ranked and ParetoFrontier in .Frontier; Learning.Tracker is tracker.go, and Learning.Patterns is patterns.go but for its
-- knowledge graph.
-- Router models plugins/intelligentrouter. Router.ArchRouter is arch_router.go, Router.RouteLlm is
-- routellm.go, Router.Semantic is semantic.go, Router.Mirt is mirt.go, Router.Candidates is the part
-- of decision.go that works on lists of models, and Router.Decision the rest of it and router.go: route
-- asks the steps in their order, with the learning system and the optimizer of Learning. The request
-- and provider types of the SDK are parameters (Schemas, Requests, Providers). Lengths of strings are
-- bytes of UTF-8.
-- ContextFolding models plugins/contextfolding. Message types and the summarizing model are parameters
-- (Chats, slm).
-- ToolRouter models plugins/toolrouter/routing.go, with the tools of the SDK (ToolSchemas) and the
-- classifying model as parameters; the panic on a negative limit is none.
-- Account models account/account.go.
-- CostEngine models costengine: one endpoint in .Single, a batch of them in .Batch, over the queries
-- that sqlc generates as a parameter (Queries).
-- Graceful models infra/graceful/graceful.go, the hooks of the wrapped plugins one after the other. Its
-- map of breakers holds the position of the wrapper that a pointer leads to.
-- SmartFallback models plugins/smartfallback: .Strategies is strategies.go, .Rules is task_rules.go.
--
-- Prelude has what they share: integers, lists, maps as lists of entries (Assoc), options with their
-- do blocks, sort.Slice as a parameter with its law (Sort.Sorts), and Float64, the operations of
-- float64 as a parameter: no law of them is assumed but IsStrict, IsOrdered and IsTotal, where a
-- theorem names them. Its instance micros, in millionths, serves the
-- examples in the modules called Tests.
--
-- There is no fuel: every loop is a recursion on a list, of events, of messages or of models. Sums of
-- tokens are unbounded; the source's are sums of string lengths.
--
-- Not modelled: the rest of plugins/learning (the plugin, the knowledge graph, embeddings), the prompt adapter and
-- the other plugins, and the providers, which are planned; the loaders of the configuration, which are
-- viper; the HTTP, GraphQL and Connect servers, the database layer, the command line and the clients
-- of external services, which are I/O around these parts; the code that gqlgen, sqlc and buf generate,
-- but for the records that the cost engine reads; and the Rust and Python projects beside the Go
-- program.
pub mod Prelude
pub mod CircuitBreaker
pub mod Config
pub mod Learning
pub mod Router
pub mod ContextFolding
pub mod Account
pub mod ToolRouter
pub mod CostEngine
pub mod Graceful
pub mod SmartFallback
