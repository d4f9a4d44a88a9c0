-- ===== src/Lib.antt =====
-- Dubbo-go: the parts of the RPC framework that decide whom a call goes to and what becomes of it.
--
-- A consumer's call starts at a cluster invoker. It asks its directory for the invokers of a
-- service, which the router chain filters, chooses one of them by a load balance, calls it, and
-- makes its result or its error the caller's, in a way that depends on the cluster strategy. The
-- load balances read the weights from the invokers' URLs and the counters of the RPC status; a
-- choice that is not available goes on the black list of the RPC status. The call itself is a
-- request with a number, whose header is written in the dubbo protocol and read back at the other
-- end, and the response is handed to whoever waits for its number.
--
-- The files, and the code that they are about:
--   Prelude    Go's integers with their wrap-around (Int), strings as lists of bytes (Bytes),
--              maps as association lists (Maps), lists and tests on the native numbers.
--   Strconv    ParseInt, Atoi, ParseBool and FormatInt of Go's strconv; Strings: HasPrefix, Split and
--              TrimSpace of its strings.
--   Stateful   calls that change a state and may panic.
--   Url        common/url.go: URL with its parameters and keys; Url.Merge: Clone and MergeURL;
--              Url.Compare: the other copies, ToMap, IsEquals, URLEqual and String.
--   Protocol   protocol/invoker.go, protocol/result.go, protocol/invocation/rpcinvocation.go: the
--              data of a call; Protocol.Base: BaseProtocol, BaseExporter and BaseInvoker of
--              protocol/protocol.go and protocol/invoker.go; Protocol.Status: protocol/rpc_status.go, one function for each of
--              its functions, on a record of the package's variables.
--   LoadBalance  cluster/loadbalance/util.go: GetWeight; below it one file for each strategy of
--              cluster/loadbalance: Random, LeastActive, RoundRobin, ConsistentHash. `select` is
--              Select, and `select_by` is Select over given weights.
--   Cluster    cluster/cluster: the state of a cluster invoker and the calls that it makes.
--              Cluster.Select is base/cluster_invoker.go (do_select is DoSelect); Cluster.Failover,
--              Cluster.Strategies (available, broadcast, failfast, failsafe), Cluster.ZoneAware and
--              Cluster.Forking are the Invoke methods; Cluster.Failback is the strategy with its queue,
--              where `process` is one tick. Cluster.Ensures has the rules of total
--              correctness, and Cluster.LoadBalances puts three strategies behind the interface.
--   Router     cluster/router/chain/chain.go: RouterChain.
--   V3Router   cluster/router/v3router: the judgers (Judger) and the rules (Rule), with the types of
--              config/uniform_router_config.go.
--   Directory  registry/directory/directory.go: RegistryDirectory. Directory.Event is
--              registry/event.go, Directory.Cache what one event does, Directory.Refresh the rest;
--              Directory.Static is cluster/directory/base and cluster/directory/static.
--   Configurator  config_center/configurator/override.go, and
--              registry/base_configuration_listener.go. A configurator is its URL.
--              Configurator.Rule is config_center/parser/configuration_parser.go.
--   Metadata   common/metadata_info.go: MetadataInfo and ServiceInfo.
--   RegistryProtocol  registry/protocol/protocol.go: registryProtocol; Urls has its URLs, Export is
--              Refer, Export and reExport, Notify the listeners.
--   BaseRegistry  registry/base_registry.go: BaseRegistry.
--   Filter     protocol/protocolwrapper and filter/filter.go: the chain of filters. Filter.Kinds is
--              filter/token, filter/echo, filter/active, filter/tps and filter/handler;
--              Filter.Shutdown is filter/gshutdown, Filter.ExecuteLimit is filter/execlmt.
--   Tps        filter/tps/strategy: the fixed and the sliding window; Tps.Limiter:
--              filter/tps/limiter/method_service.go. Its concurrent.Map is a parameter, with the laws
--              of IsMap.
--   Codec      protocol/dubbo/impl/codec.go and package.go: ReadHeader, packRequest, packResponse
--              and Encode.
--   Remoting   remoting/exchange.go: request numbers and pending responses.
--   Examples   sample data, and each theorem on it.
--
-- How the code is read. A function that changes state takes the state and returns the new one. A
-- panic is a value of Outcome. What stands behind the interfaces Directory, Invoker and LoadBalance
-- is the record Env over a state `W`, which every call may change in any way; State also keeps the
-- invokers that were called, in order, which the program does not. Two Invoker values are the same
-- if they point to the same object. The generator of random numbers and the clock are arguments,
-- as are md5, crc32, regular expressions, strings.EqualFold, the comparisons of floats, the queue of
-- failback, and the serializer. What the registry directory, the registry protocol and the base registry call
-- is a record Env of each. Where Go
-- ranges over a map in an order of its own, the entries have an order here. The log is left out, and
-- error texts keep only what they are made of.
--
-- Bounds and fuel. The loop of failover runs on the number of rounds that are left, retries + 1,
-- and the reselection of DoSelect on 3, as in the code. sort.Search runs on one more than the
-- number of keys: each round takes at least one index from the interval. A tick of failback runs on
-- one more than the calls that its tasks may still cost. TrimSpace runs on the length of the text. strconv.Itoa runs on one
-- more than the number, which has fewer digits. Go's int has 64 bits.
--
-- Taken to hold: a router of the chain returns and keeps no state (its Route is a function of the
-- invokers, the URL and the invocation), and the primitive URL that the key of the directory's cache
-- reads its time stamp from can be parsed.
--
-- Goroutines. TryRefreshBlackList runs its three goroutines one after the other, and forking runs
-- the forks in the order of the list. A tick of failback runs the goroutine of each task before it
-- looks at the next, and NotifyAll is its goroutine. DoSelect starts TryRefreshBlackList in a goroutine: it is
-- another call here.
--
-- Not modelled: the clients of zookeeper, nacos, etcd and other registries, the waiting for events of
-- Subscribe, service discovery, the metadata services and reports, the loading of configuration and the clients of its
-- centres, the transports and the protocols other than the dubbo header, the filters for access logs,
-- authentication, generic calls, metrics and tracing, proxies, extensions, logging and metrics; of the
-- version 3 router the decoding of YAML, of the registry directory its constructor, its subscription
-- and its listeners, and NewURL. They are input and output, reflection, clients of external systems,
-- or parts yet without a model. Of the floats in GetWeight the exact quotient stands in for the
-- rounded one.
pub mod Prelude
pub mod Strconv
pub mod Strings
pub mod Stateful
pub mod Filter
pub mod Configurator
pub mod Metadata
pub mod RegistryProtocol
pub mod BaseRegistry
pub mod Directory
pub mod V3Router
pub mod Url
pub mod Protocol
pub mod LoadBalance
pub mod Cluster
pub mod Router
pub mod Tps
pub mod Codec
pub mod Remoting
pub mod Examples
