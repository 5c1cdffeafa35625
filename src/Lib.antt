-- ===== src/Lib.antt =====
-- grpc-traffic-controller: an xDS control plane that configures proxyless gRPC clients from
-- GRPCListener objects and endpoint slices of Kubernetes.
--
-- A client asks for resources by type and name. A watch (gtc/cache.go) subscribes to these names,
-- sends a first response if one of them is new to the client, and then one for each change. The
-- resolvers (gtc/listener.go, gtc/cluster.go, gtc/endpoint.go) read a name (gtc/resource.go), look up
-- the listener, and make the resource of it. Informers put changes of listeners and slices in queues
-- (pkg/controllersupport); the handlers of the queues (gtc/notify.go) find the resources that a change
-- touches, and the watches (gtc/watcher.go) tell every client that watches one of them.
--
-- Files:
--   Prelude, Prelude/*: texts as code points, integers, lists, Boolean tests
--   Go, Go/*: strconv.Itoa and Atoi, path.Join, as far as the names of resources need them
--   Api, Api/*: api/gtc/v1alpha1, one record for each struct
--   Errors, Errors/Loops: results of calls (a value, an error or a panic) and the loops that stop at
--     the first error
--   Envoy, Envoy/*: the messages of go-control-plane that the source fills, and the calls of libraries
--     as the record Library
--   Kubernetes: what is read of endpoint slices, and the listers as the record Listers
--   Names, Names/*: gtc/resource.go, and the names of gtc/listener.go
--   Resolver: gtc/xds.go (makeDuration, mustAny, makeFractionalPercent, encodeResource)
--   Resources, Resources/Loop: gtc/resolver.go, and the loop that the three resolvers share
--   Interceptors, Interceptors/*: gtc/interceptor.go
--   Routes, Routes/*: gtc/route.go (makeRouteConfig; Matchers for makeRouteMatch, Policies for retry and
--     hash policies, Clusters for makeWeightedClusters)
--   Listeners, Listeners/Resolve: makeListener and the resolver of gtc/listener.go
--   Clusters, Clusters/*: gtc/cluster.go (findBackendSpec, makeCluster and the resolver)
--   Endpoints, Endpoints/*: gtc/endpoint.go (Slices for ports, readiness and topology; Members
--     for what the slices hold, Groups and Assignments for what the localities do)
--   Watches, Watches/*: gtc/watcher.go (watch, stopAllWatches, notifyChanged; Interleaving for
--     concurrent calls)
--   Notifications, Notifications/*: gtc/notify.go
--   ConfigWatcher, ConfigWatcher/*: gtc/cache.go
--   Queue, Queue/Worker: pkg/controllersupport/handler.go
--   Bootstrap, Bootstrap/Providers: bootstrap and cmd/bootstrapgen
--   Delivery, Delivery/Updates: how these parts fit together
--   Propagation, Propagation/*: the informers' caches, the queues, the handlers, the sends and the watches
--     as one transition system (System), in which a change finds its way to the clients: Caches for
--     what is assumed of the caches, Answers, Ladder, Changes and Services for what an answer depends
--     on, Effects, ListenerChanges, SliceChanges and Coverage for what a change announces, Pending,
--     Announcements, Subscriptions, Responses, Deliveries and Freshness for where the news is, Asking,
--     Joining, Rounds, Releasing and Asked for who is subscribed, Waiting and Draining for how a run
--     comes to rest
--   TestRuntime, TestRuntime/*: pkg/testruntime, the builders and the assertions of the scenarios
--   Tests, Tests/*: runs at fixed inputs
--
-- State is passed explicitly. A pointer to a set of watchers is an address in a heap, so two calls that
-- hold the same set see each other's changes. An int is an integer, an uint32 a number with its
-- wrap-around written out. A Go panic is a result of its own, so a theorem that a call returns says so.
-- In the transition system a step is what one goroutine does between two points where it can block,
-- and steps come in any order; a resolution, a list of the caches, one call of watcher.watch, and one
-- round of watches.stopAllWatches are one step each (Watches/Interleaving takes calls of watch and
-- stopWatch apart). OnUpdate is given two objects and handles only the new one, so the
-- system keeps, in a field that no step reads, the old object of each slice that has left its service.
-- An event is the object that changed; the tombstones that client-go gives for missed deletions are not
-- modelled.
-- Every loop of the source runs over a list, and the loop of a watch and that of a worker run over the
-- events that they meet, so none needs fuel. Only the digits of a number (Go/Strconv) are counted out
-- on fuel, which is proved to be enough. The case tables of Unicode behind strings.EqualFold
-- are a parameter.
--
-- Not modelled: the gRPC server, the informers and the work queue, protobuf encoding and hashing
-- (parameters), logging, the texts of errors, generated code, and the stop of the server.
pub mod Prelude
pub mod Go
pub mod Api
pub mod Errors
pub mod Envoy
pub mod Kubernetes
pub mod Names
pub mod Resolver
pub mod Interceptors
pub mod Routes
pub mod Resources
pub mod Clusters
pub mod Listeners
pub mod Endpoints
pub mod Watches
pub mod Notifications
pub mod ConfigWatcher
pub mod Queue
pub mod Bootstrap
pub mod Delivery
pub mod Propagation
pub mod TestRuntime
pub mod Tests
