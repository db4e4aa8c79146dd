-- ===== src/Lib.antt =====
-- The controllers of the multicluster cloud provider: what they promise, and what they do.
--
-- The program runs controllers on a Karmada control plane. Each reconciles one kind of object: it
-- gets the object from the API server, calls the cloud provider, and writes back finalizers and
-- statuses. The event handlers decide which objects are reconciled: an event of one object may be
-- signalled to another over a channel, until a name is queued. A cloud implements the two load
-- balancer interfaces of cloud.go and registers itself under a name; the process makes the provider
-- that its options name, and starts the controllers with it.
--
-- The files, and the code that each is about:
--   Prelude, with children       slices, lists, structural equality, Go's order on strings
--   Api, with children           the fields of the Kubernetes and Karmada objects that the code uses
--   Platform/Effects             actions that may return an error or panic, with do blocks
--   Platform/Components          the API client and cloud.go as records of calls; the log
--   Platform/Retry, Helpers      retry.RetryOnConflict, sets.String, controllerutil: parameters with
--                                laws
--   Platform/StatusSync          the closure that the controllers retry to write a status
--   Platform/Watching            the event handlers and watches of controller-runtime; its manager is
--                                a parameter
--   Platform/Keeps               what a run keeps of its log, rule by rule
--   Platform/Ends                what a run makes of the provider's state, rule by rule
--   Platform/Contract            what cloud.go documents of a provider, as laws; the controllers
--                                are proved against it, and FakeProvider/Balances fills it
--   MciController                pkg/controllers/multiclusteringress/mci_controller.go
--   TrafficBlock                 updateMCITrafficBlockClusters of the same file
--   IngressWatch                 pkg/controllers/multiclusteringress/eventhandlers.go
--   IngressWatch/Setup, Routes   setupWatches of mci_controller.go, and the way of an event
--   McsController                pkg/controllers/multiclusterservice/mcs_controller.go
--   McsWatch                     pkg/controllers/multiclusterservice/eventhandlers.go, and
--                                setupWatches of mcs_controller.go
--   ServiceExportPropagation     pkg/controllers/serviceexportpropagation/
--                                serviceexport_propagation_controller.go
--   ExportWatch                  pkg/controllers/serviceexportpropagation/eventhandlers.go
--   ExportWatch/Setup, Routes    setupWatches of the controller, and the way of an event
--   ServiceLocations             pkg/controllers/mciservicelocations/mci_service_locations.go
--   LocationWatch                SetupWithManager of the same file
--   Bindings                     the clusters of a binding, as ServiceExportPropagation and
--                                ServiceLocations compute them
--   CrdInstallation              pkg/controllers/crdinstallation/crd_installation_controller.go
--   CrdInstallation/Watches      SetupWithManager of the same file
--   Indexes                      pkg/controllers/indexes/reference_indexer.go
--   Util                         pkg/util/ingressclass.go, pkg/util/multiclusterservice.go
--   Startup                      pkg/controllers/context/context.go
--   Process/Registry             plugins.go, and cloudInitializer of
--                                cmd/controller-manager/controller-manager.go
--   Process/Options              options/options.go, options/validation.go
--   Process/Controllers          app/controllers.go, Interface of cloud.go
--   Process/Manager              app/manager.go
--   FakeProvider                 fake/fake.go, fake/regist.go
--   Examples                     concrete inputs for the theorems
-- A function of the code keeps its name, in lower case with underscores: handleMCIDelete is
-- handle_mci_delete. A part of a function that has a name of its own here says in its comment what
-- it is.
--
-- A handler is an action on a world: the state of the API server, which stands for everything that
-- other clients do between two calls, the state of the provider, and a log. A call answers with a
-- value or an error and with the next state, so a theorem holds for every behaviour of the server
-- and of the provider that its hypotheses do not exclude. The log has the calls that write, the
-- reads of ingresses and MultiClusterServices that are reconciled, and the calls of the provider,
-- with their answers, and what the event handlers queue or send; the newest entry comes first. A
-- nil pointer that is dereferenced is a panic. A function of the process may also end it, by
-- klog.Fatalf: it is an action on the state of the process with a third outcome.
--
-- A watch is a handler with its source. SetupWithManager gives the watches to the manager, which
-- keeps those that it accepts; what arrives at a source is delivered to each of its handlers, so a
-- route through the channels is followed step by step, from the watches that the set-up leaves.
--
-- The retries are not bounded here: RetryOnConflict is a parameter whose outcome comes of one or
-- more calls of the closure, each but the last a conflict. The closure assigns a variable that first
-- is the caller's object and later a refetched one; both are kept apart, since the caller goes on
-- with its own. The loops recur on the lists that they range over. Only the
-- digits of a number are made with fuel: one step more than the number, which is enough since each
-- step divides it by ten. The order in which Go visits a map of initializers is a parameter, any
-- function that keeps the entries.
--
-- Not modelled: logging of klog, contexts and deadlines; metadata that the code does not read; the
-- rate limiters of the queues, and what controller-runtime does with a queued name; the calls of the
-- controller builders in crdinstallation and mciservicelocations, of which only the outcome is a
-- parameter; the options for rate limiting, profiling, logging and feature gates, with the flags of
-- the first two as parameters, and the parsing, usage and logging of the command and its main, which
-- call libraries only; the informer manager. The fields of the spec of a MultiClusterService that no
-- code reads are one text. An int or a duration of the options is an integer without bounds: it is
-- only stored, passed on and printed.
-- The library's type of names is a pair of texts; its text form and names.GenerateBindingName are
-- parameters. The mutex of plugins.go, and the lock and the delay of the provider in memory, are
-- left out; so are the methods of the latter that return the provider itself.
pub mod Prelude
pub mod Api
pub mod Platform
pub mod Indexes
pub mod Util
pub mod TrafficBlock
pub mod IngressWatch
pub mod MciController
pub mod McsController
pub mod McsWatch
pub mod CrdInstallation
pub mod Bindings
pub mod ServiceExportPropagation
pub mod ServiceLocations
pub mod LocationWatch
pub mod Startup
pub mod ExportWatch
pub mod FakeProvider
pub mod Process
pub mod Examples
