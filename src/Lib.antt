-- ===== src/Lib.antt =====
-- The MLB controller watches Kubernetes services that carry the labels `mlb-loadbalancer-name` and
-- `mlb-upstream-name`, computes from their pods the servers (node address, node port, weight) of
-- each upstream, and makes external load balancers serve exactly these.
--
-- Parts and files:
-- - `Domain`: internal/domain. `Domain.Model` has the records of domain/model, `Domain.Config` the
--   configuration records and getters, `Domain.Defaults` `SetDefaults` and `ApplyDefaultValues`.
-- - `Controller`: internal/controller/controller.go. `Controller.Env` has the state of
--   `ControllerImpl`, the ports as records of functions (one snapshot of the informer caches, and what
--   the adapters answer), the effects (queue, metrics, calls of the load balancers, in order) and the
--   monad of operations, which return a result and the state, also when they fail.
--   `Merge` is `mergeBackends`, `Build` `buildUpstream` and `matchLabels`, `Fallback` the default
--   backend and the safety net, `Sync` `syncUpstreamsForService`, `Handler` `syncHandler`,
--   `handleServiceDeletion` and `processNextItem`, `Events` the event handlers, `Reconcile`
--   `syncSingleLoadBalancer` and `SyncUpstreams`, `Tickers` the periods of `runPeriodicSync`, and
--   `System` a run of the controller: a step relation for its event loop, workers and tickers.
-- - `Nginx`: internal/adapters/loadbalancer/nginx. Of nginx.go, `Parse` is `parseBulkNginxBackends`,
--   `Address` the address helpers, `Plan` the decisions of `SyncUpstream`, `Sync` the cache and
--   `SyncUpstream`, `SyncAll` `SyncAllUpstreams`, `Paths` has the paths of the requests and `Wire` the
--   HTTP requests they go out as. The clock, the semaphore and the answers of the servers are
--   parameters that may depend on everything sent before. Of client.go, `Client` is `doRequest` and
--   `ClientSet` `NewNginxClientSet`.
-- - `Kubernetes`: internal/adapters/kubernetes/client.go. `Objects` maps the objects of the API server,
--   `Watch` has the event handlers, `Cache` the reading operations over the listers of client-go, which
--   are parameters; `kubernetes_port` makes them the port of the controller.
-- - `Validator`: internal/adapters/validator. `LoadBalancer` is loadbalancer.go, `IpReplacement`
--   ip_replacement.go, `Settings` the validators of the settings without a kind, `Adapters` nginx.go
--   and envoy.go, and `Composite` the composite validator, which runs all of them in order.
-- - `Application`: what brings the program up and ends it. `Loader` is internal/adapters/config/viper.go,
--   `Certificates` internal/adapters/certificate/loader.go, `Container` the factory of
--   internal/adapters/loadbalancer/factory.go and `NewContainer` of internal/di/wire.go, `Logging`
--   internal/adapters/logging/zap.go, `Main` the path of the configuration,
--   `Metrics` internal/adapters/metrics/prometheus.go, `Election` the operations of
--   internal/adapters/leaderelection/kubernetes.go, and `System` its `Run` together with `Start` of
--   internal/application/app.go: a step relation on the state of the goroutines of one process,
--   where each region under a lock is a step.
-- - `Util`: internal/util/ip_replacement.go and internal/util/validation.go, over `Net`, the functions
--   of Go's packages `net` and `net/url` that they use.
-- - `Base`: bytes and texts, numbers, Go's maps and sorting, and the functions of Go's packages
--   `strings` and `strconv` that the code uses. `Tests` has concrete runs.
--
-- How the code corresponds to the model. A Go map is an association list whose order stands for the
-- order of a walk. `int` weights are added with the wrap-around of 64 bits; `int32(port)` keeps 32
-- bits. `sort.Slice` and `sort.Strings` are an insertion sort: their keys differ, so every sorting
-- routine returns this slice. Operations that the code runs under a mutex are single steps, and the
-- clients of the NGINX adapter, which it serves concurrently and which share only caches by base URL
-- and collected errors, are served in turn. Calls of the logger have no counterpart. Texts are bytes,
-- and the space that `strings.TrimSpace` removes is the ASCII one. `Base.Decimal.digits` takes fuel:
-- n + 1 is enough for n, since each round divides by ten.
--
-- The attempts of `doRequest` are recursion on the rounds that are left, three at the start.
--
-- Not modelled: the goroutines of one handler against those of another between the regions that a mutex
-- guards (a handler is one step), the channels of the informers and their start, the registration of
-- the watchers and `stop` of the controller, `App.Stop`, what zap writes, the registry of Prometheus,
-- and the signals and exit codes of `main`. Viper, mapstructure, the HTTP transport, `http.ServeMux`, the
-- TLS packages, the file system and client-go are parameters.
pub mod Base
pub mod Domain
pub mod Net
pub mod Util
pub mod Controller
pub mod Kubernetes
pub mod Validator
pub mod Nginx
pub mod Application
pub mod Tests
