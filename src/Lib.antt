-- ===== src/Lib.antt =====
-- kube, the Kubernetes client and runtime of this repository: its controller runtime, the requests and
-- their parameters, versions, discovery, entries, the configuration of a client and its credentials.
--
-- A watcher (kube-runtime/src/watcher.rs) lists the objects of a selection and follows their changes
-- from the version of the list, lists again when the server has forgotten that version, and hands
-- out events. A reflector (kube-runtime/src/reflector) writes the events to a cache by object
-- reference. A controller turns events into requests to reconcile an object, which a scheduler
-- (kube-runtime/src/scheduler.rs) delays and deduplicates, and a runner
-- (kube-runtime/src/controller/runner.rs) takes messages from the scheduler and runs an action for
-- each, one at a time for equal messages. The applier of controller/mod.rs puts the runner over the
-- scheduler. The calls carry parameters of kube-core/src/params.rs, and a client that makes them takes
-- its address and credentials from its configuration (kube-client/src/config) and renews the latter
-- (kube-client/src/client/auth).
--
-- - Prelude: shared notation, Booleans, equality as an interface (EqLaws), results, polls, streams;
--   Prelude.HashMap and Prelude.HashSet are the hash maps and sets, as lists of entries; Prelude.Ord is
--   order as an interface (OrdLaws), and Prelude.Sort the stable sort over it.
-- - Core: kube-core. Core.Resource is the traits Resource and ResourceExt, object metadata, lists and
--   watch events (resource.rs, object.rs, watch.rs, error.rs, metadata.rs); Core.Query, ListParams,
--   WatchParams and PatchParams (with the smaller get and post parameters) are the parameters of calls
--   and the queries that they become; Core.Roundtrip and Core.Patching are about them. Core.DeleteParams
--   are those of delete calls. Core.Request is request.rs (Checks and Target are about it), and
--   Core.Subresource subresource.rs (Ports is about it). Core.Gvk is gvk.rs
--   and Core.Discovery discovery.rs; Core.Version is the parser of version.rs, Core.Version.Order its two
--   orders, and Parse, Roundtrip and Precedence are about them.
-- - Discovery: kube-client/src/discovery, parse.rs in Discovery and apigroup.rs in Discovery.ApiGroup.
--   Names and Totality are about the first, Latest and Stability about the second.
-- - Config: kube-client/src/config. Kubeconfig, Merge and Files are file_config.rs, Loader
--   file_loader.rs, Credentials what both load, InCluster incluster_config.rs, and Client mod.rs; Outside
--   is what they take from the system and from libraries. Named, Merging, Folding, Reading, Loading and
--   Pem are about them.
-- - Auth: kube-client/src/client/auth/mod.rs. Auth.Exec are exec plugins, Provider the providers, Token
--   token files and the choice of credentials, Header the header of a token that is refreshed; Sources
--   is what they take from outside. Freshness, Steady and Lasting are about them.
-- - Watcher: watcher.rs. Watcher.Events are the events, Watcher.Options the options and the parameters
--   made of them; step_trampolined and step have the names of the functions they model, and the arms
--   of the first are on_list, on_watch and on_next. Watcher.Server is what they rely on of the server and
--   the client; Watcher.Follow and Watcher.Rounds are about them.
-- - Reflector: reflector/object_ref.rs (ObjectRef) and reflector/store.rs (Store; `find` is find_by).
--   Reflector.Store.Contents describes the cache as a function of references.
-- - Scheduler: scheduler.rs. Scheduler.Delay is the interface of the delay queue of tokio-util, with
--   its documented laws; Scheduler.Timers is a queue that has them. Slots, Schedule, Pop, Polling,
--   Taking, Holding and Backlog are about the operations.
-- - Runner: controller/runner.rs, and Runner.FutureHashMap controller/future_hash_map.rs. Exclusion,
--   Polling, Keeping, Values and Ending are about the loop.
-- - Finalizer: kube-runtime/src/finalizer.rs, which keeps an object from being deleted before it is
--   cleaned up. The call of the API and the reconciler are parameters. Finalizer.Guarantee is about it.
-- - Streams: adapters of kube-runtime/src/utils. Flatten is event_flatten.rs, Modify event_modify.rs,
--   Predicate predicate.rs (Passing is about it), Backoff stream_backoff.rs and ResetTimer
--   backoff_reset_timer.rs, both over a backoff policy, which is a parameter. Split is the split of a
--   stream into values and errors of mod.rs.
-- - Controller: kube-runtime/src/controller/mod.rs: actions, requests and reasons; Controller.Trigger the
--   triggers (Owners is about them), Controller.Reschedule the future that sends the next request, and
--   Controller.Applier the jobs of applier and the stream of their results (Jobs and Exclusive are about
--   them).
-- - Wait: kube-runtime/src/wait.rs; Wait.Waiting is about it. Reflector.DelayedInit is
--   utils/delayed_init.rs, on which the readers of a store wait.
-- - Entry: kube-client/src/api/entry.rs, whose commits save through an API that is a parameter.
--   Entry.Commits is about them.
-- - Examples: the theorems at concrete inputs, and tests.
--
-- Time is a natural number, without a last instant: that the sum of an instant and a duration overflows,
-- and panics, some 2 ^ 63 seconds from now is not in the model. That the delay queue panics on a deadline
-- too far in the future is (DelayQueueLaws has its reach, and InReach says that the requests are within
-- it). A stream of requests is fused: after its end it stays at its end. A stream of requests is the list of the answers of its polls, of which an
-- empty rest is pending. A future is a value with a poll, which answers and gives the future that is
-- polled next. A panic is an error of the model (Fault, RunnerFault, MissingField). Locks and reference
-- counts are left out: an operation is one step. The API server is the record ApiMode, which answers
-- calls in a state of the world; ServerLaws says what the server documents, for events that the client
-- has not lost.
--
-- Loops have fuel. The loop over the expired messages has one round more than the delay queue has
-- messages, since each round but the last takes one from it; the loop of the runner has one round
-- more than the backlog of the scheduler, since each round but the last makes that smaller. The
-- recursion into subresources has one more than the longest name has characters, since a subresource has
-- a longer name. The trampoline of the watcher can go on as long as a server sends bookmarks, so that its
-- rounds are a parameter; more rounds than the server has silent steps in a row are enough.
--
-- Not modelled: the client with HTTP and TLS, the OAuth and OpenID Connect sources of tokens, and the
-- methods of the API that send a request, which are input and output; the Controller type, which puts
-- together the parts that are modelled; the filter of groups in discovery, durations, events, the types
-- of webhooks, and derive macros.
pub mod Prelude
pub mod Core
pub mod Watcher
pub mod Reflector
pub mod Scheduler
pub mod Runner
pub mod Discovery
pub mod Auth
pub mod Config
pub mod Controller
pub mod Entry
pub mod Wait
pub mod Finalizer
pub mod Streams
mod Examples
