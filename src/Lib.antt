-- ===== src/Lib.antt =====
-- The NFS load balancing CSI driver, pkg/nfs, pkg/lbcontroller and cmd/nfsplugin.
--
-- The controller server hands each node one address of the NFS server: `ControllerPublishVolume` asks
-- the load balancer, which writes the address on the node as an annotation and counts it, and answers
-- with it; the node server mounts the share from that address. `ControllerUnpublishVolume` takes the
-- annotation away again. Both servers lock a key for each request in one table. The provisioning calls
-- mount the share through the node server, work on it and unmount it.
--
-- The files and the code:
--   Cluster        what pkg/lbcontroller/lbcontroller.go reads and writes of nodes; client-go is the
--                  parameter `NodeApi`
--   Lb             `LBController`: resyncIPMap is `resync_ip_map`, AssignIPToNode `assign_ip_to_node`,
--                  RemoveIPFromNode `remove_ip_from_node`; Lb/Interleaving runs their calls in any
--                  order, Lb/Restart compares the counts with a new resync, Lb/Departures lets a node
--                  leave, Lb/Growth bounds the load of an address, Lb/Progress says when calls succeed,
--                  Lb/Origin where an address comes from, Lb/Withdrawal how it is taken away
--   Locks          `VolumeLocks` of pkg/nfs/utils.go; Locks/Exclusion runs its methods in any order
--   Volumes        volumes, snapshots, their ids and paths, of pkg/nfs/controllerserver.go;
--                  Volumes/Params the parameters of a storage class, Volumes/Params/Created what is
--                  made of them
--   Rpc, Host      status codes, requests and `defer`; what the driver calls of the host
--   Driver         `NewDriver` of pkg/nfs/nfs.go
--   Node           pkg/nfs/nodeserver.go: Node/Publish the handlers, Node/Options the mount options,
--                  Node/Stats the statistics and the calls that answer from the driver, Node/Helpers
--                  what nothing calls; Node/ReadAheadLaws prints a read-ahead and reads it back,
--                  Node/Finish is about what follows the mount, Node/Progress and Node/Repeats
--                  say when calls succeed, and succeed again
--   Provisioner    the provisioning calls of pkg/nfs/controllerserver.go; in a process without
--                  `--run-node-server` the node server that they call is nil
--   Controller     its publish and unpublish calls; Controller/EndToEnd and Controller/Delivery put
--                  them before the node server
--   Identity       pkg/nfs/identityserver.go
--   Server         the endpoint of pkg/nfs/utils.go and pkg/nfs/server.go; Server/Logging `logGRPC`
--   Startup        `handle` of cmd/nfsplugin/main.go and `NewControllerServer`; Startup/Run the services
--                  that `Run` starts, Startup/Lifecycle the goroutines of pkg/nfs/server.go,
--                  Startup/Waiting when `Wait` returns, Startup/Main the goroutines of `main`
--                  and its child, which may end unnoticed
--   Version, Fakes pkg/nfs/version.go; pkg/lbcontroller/fake.go and pkg/nfs/fake_mounter.go
--   Text, Maps     strings of Go as lists of bytes, and maps as association lists
--   Prelude        shared notation and lemmas
--   Examples       the theorems at concrete inputs
--
-- A handler is a function from the state to the state and a response, a status code or a panic. A Go
-- map is an association list: a loop over it may visit the entries in any order, and where the order
-- counts, as in AssignIPToNode, it is a parameter. A count is a word of 64 bits in two's complement. A
-- mutex makes the part under it one step. `decimal` prints a number of nineteen digits at most, which
-- holds every int64; nothing else runs on fuel.
--
-- Nodes carry their resource version. What is relied on of the API server is optimistic concurrency,
-- `IsVersioned` of Cluster: it refuses an update under a version that is not its own. The lister may lag
-- behind it; where a theorem needs it up to date, `IsFresh` or a hypothesis says so.
--
-- Not modelled: the text of errors and logs; what Serve and GracefulStop of gRPC do beyond that they
-- block, return or fail; the in-cluster configuration and the clients that NewLBController makes; the
-- order in which `sort.Slice` leaves equally loaded addresses where there are more than twelve; letters
-- beyond ASCII in `strings.ToLower` and `strings.EqualFold`. What the driver calls of client-go,
-- mount-utils, sets.String, the cache, os/exec, YAML and the operating system are parameters, with what
-- is relied on as hypotheses.
pub mod Prelude
pub mod Text
pub mod Maps
pub mod Cluster
pub mod Lb
pub mod Locks
pub mod Volumes
pub mod Rpc
pub mod Driver
pub mod Host
pub mod Node
pub mod Provisioner
pub mod Controller
pub mod Identity
pub mod Server
pub mod Startup
pub mod Examples
pub mod Version
pub mod Fakes
