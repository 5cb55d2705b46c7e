-- ===== src/Lib.antt =====
-- Universal Database Proxy: a verification library for the Go backend under backend/.
--
-- The program is a proxy in front of several databases. A query meets, in this
-- order, a pipeline of engines (security, observability, caching), the router that
-- chooses a database, and the helpers around the call itself: a retry loop and
-- circuit breakers. An access-control service guards the administration of the
-- proxy with users, roles and sessions. Which file models which part:
--
--   Types.antt                the data of backend/pkg/types/query.go
--   Pipeline.antt             backend/internal/engines/base.go: Engine, BaseEngine,
--                             EnginePipeline (process, process_response, add_engine)
--   SecurityEngine.antt       backend/internal/engines/security_engine.go: Process,
--                             ProcessResponse, AddRule, RemoveRule and their helpers
--   CachingEngine.antt        backend/internal/engines/cache_engine.go: Process,
--                             ProcessResponse, getCacheEntry, setCacheEntry,
--                             evictOldest, InvalidateDatabase, InvalidateTable, Clear
--   Observability.antt        backend/internal/engines/observability_engine.go:
--                             Process, ProcessResponse
--   Server.antt               backend/internal/server/server.go: the pipeline of
--                             initEngines
--   QueryPriority.antt        backend/internal/engines/query_priority_engine.go: the
--                             four queues, enqueue, dequeue, SetPriority, drain
--   LoadBalancer.antt         backend/internal/engines/load_balancer_engine.go:
--                             Process, ProcessResponse, selectNode, AddNode
--   Failover.antt             backend/internal/engines/failover_engine.go: health
--                             counts, shouldFailover, triggerFailover
--   Router.antt               backend/internal/routing/router.go: Router
--   CircuitBreaker.antt       the same file: CircuitBreaker
--   Bytes.antt                backend/internal/retry/policy.go: contains,
--                             containsHelper
--   RetryPolicy.antt          the same file: RetryPolicy, RetryManager
--   RetryBreaker.antt         the same file: CircuitBreaker
--   Rbac.antt                 backend/internal/security/rbac.go
--   Tenants.antt              backend/internal/engines/multitenant_isolation_engine.go:
--                             Process with its checks, RegisterTenant, SuspendTenant,
--                             ResumeTenant, SetQuota, SetAccessPolicy, the reset loop
--   RateLimit.antt            backend/internal/engines/ratelimit_intelligence_engine.go:
--                             Process, ProcessResponse, monitorLoop, AddToWhitelist
--   Sharding.antt             backend/internal/engines/sharding_engine.go: Process,
--                             determineShard, hashShard, rangeShard, shards, rules
--   QueryHistory.antt         backend/internal/engines/query_history_engine.go:
--                             Process, ProcessResponse, QueryHistory, GetTopQueries
--   QueryVersioning.antt      backend/internal/engines/query_versioning_engine.go:
--                             Process, CompareVersions
--   PoolRebalancer.antt       backend/internal/engines/pool_rebalancer_engine.go:
--                             RegisterPool, the Record methods, ProcessResponse,
--                             rebalance
--   Prelude.antt, GoMap.antt  shared lemmas, and Go maps as association lists
--
-- A Go struct is a record, a method is a function with the source's name in
-- antt's spelling that takes the state and returns the new one, and a Go map is
-- an association list whose keys are found from the left. Engines share a world
-- of their states, which the pipeline passes from one to the next. Mutexes have
-- no counterpart: a method that holds its lock is one step. A call that asks for
-- a lock that its own caller holds never returns, which the result blocked of
-- the type Go says: Prelude.Locks has the mutexes, which the two engines that do
-- so ask for. Machine integers that only count (failures, hits, lengths) are
-- natural numbers where no overflow can be reached; others are integers with
-- their wrap-around to 64 bits. A text that is hashed or searched is its bytes
-- in UTF-8. Values are copied, with two exceptions, which the code shares and
-- writes to: the access policies of the tenants are kept by address, and a
-- response that is a cache hit is masked in the cache entry, too, by the
-- pipeline of Server.antt.
--
-- Parameters. The matching of regular expressions and the lower-casing of text
-- (regexp, strings.ToLower) are the fields of TextLib. SHA-1, the clock, the new
-- session's random identifier, and whatever else Go leaves open are arguments:
-- the order in which a map is iterated, and the order in which sort.Slice leaves
-- equal elements, of which the theorems assume only what Go documents. A float64
-- is its bits, and its arithmetic a FloatLib, of which FloatLaws says that two
-- products of the rate limits do not exceed the limit, or a RatioLib. FNV-1a,
-- number scanning and printing are the fields of ShardLib, HistoryLib and
-- PrintLib. The operation that is retried is the list of its outcomes.
--
-- Fuel. The inheritance of roles can be cyclic in the source, and the permission
-- check then does not end. It is a recursion on a depth, which returns none when
-- the depth does not suffice. Each step of inheritance uses up one unit, so that
-- a depth above the longest chain is enough for roles without a cycle. The retry
-- loop recurses on MaxAttempts, the number of its rounds in the source. Every
-- other loop is a structural recursion on the list that it visits; a division of
-- the source that can panic, and a write to a nil map, have the result panic.
--
-- Not modelled: sockets, goroutines, HTTP and the protocol handlers of
-- backend/internal/server, protocols, admin, api, ui, websocket; plugins,
-- secrets, certificates and the configuration files, which are input and output;
-- the engines that score queries with regular expressions and floating point;
-- calculateDelay, which draws the time that the retry loop sleeps from a random
-- number generator; logging, metrics and the counters that only report. The
-- Redis client of the cache is empty in the source. backend/udbproxy and
-- internal/engines hold copies of packages of backend. The frontend is a React
-- application.

pub mod Bytes
pub mod CachingEngine
pub mod CircuitBreaker
pub mod Failover
pub mod GoMap
pub mod LoadBalancer
pub mod Observability
pub mod Pipeline
pub mod PoolRebalancer
pub mod Prelude
pub mod QueryHistory
pub mod QueryPriority
pub mod QueryVersioning
pub mod RateLimit
pub mod Rbac
pub mod RetryBreaker
pub mod RetryPolicy
pub mod Router
pub mod SecurityEngine
pub mod Server
pub mod Sharding
pub mod Tenants
pub mod Tests
pub mod Types
