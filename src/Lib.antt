-- ===== src/Lib.antt =====
-- Hodu forwards TCP connections through a server: clients connect to it over gRPC, open routes on it
-- and serve the peers that connect to the routes; it also runs commands on clients (rxc) and gives
-- terminals on them. This library models the parts that keep the state of the server and of
-- the client. The Go files stand
-- at the root of the repository.
--
-- The parts, and where they are modelled:
--   Rxc.Output, Rxc.Run     server-rxc-job.go, `ServerRxcJobRun`: the status of one run of a job, the
--                           calls that move it, and the capture of its output (`append_output`)
--   Rxc.Job                 server-rxc-job.go, `ServerRxcJob`: its runs and counters. A schedule is a
--                           list of critical sections of the job's mutex, in any order; what a
--                           goroutine has still to do after one is part of the state
--   Rxc.Expiry              server-rxc-job.go, `ServerRxcJobExpiryHeap`: its methods, with Push and
--                           Remove of Go's container/heap over them
--   Rxc.Registry            server-rxc-job.go and server.go: the server's table of jobs with the
--                           expiry heap, from `StartRxcJob` to `purge_stale_rxc_jobs`. Jobs are
--                           shared: the store maps a pointer, a number, to a job
--   IdPool                  the loop that assigns ids, in server.go, server-cts-rxc.go and others
--   Route.Peers             server.go, `ServerRoute`: the table of its peers and the accept loop
--   PeerConn                server-peer.go, `ServerPeerConn`: stopping a peer and reporting packets to
--                           it, as atomic steps of several goroutines in any order
--   Route.Routes            server.go, `ServerConn`: the routes of a connection by id and by name,
--                           and the server's table of ports
--   Conns                   server.go: the server's tables of client connections by id, address and
--                           token, and the packet in which a client names itself
--   Conns.Targets           server-rxc-job.go: the connections that a job runs on
--   Receive                 server.go: the loop that takes a client's packets
--                           (`ServerConn.receive_from_stream`), over Conns, Route, PeerConn and Sessions
--   RouteOption             hodu.go: the words of a route option
--   Lookup                  server.go: how a text leads to a route or a peer, over Conns and Route
--   Sessions.Rxc            server-cts-rxc.go: the commands that run on a client, by id and by
--                           websocket, and what is sent for them; Threads has each method as
--                           a goroutine whose steps come between those of the others
--   Client.Peers            client.go and client-peer.go, `ClientRoute`: the peers that the client
--                           connects to for the server, one event at a time
--   Client.Routes           client.go, `ClientConn`: the routes of a connection with their lifetimes,
--                           and what is told to the persister
--   Client.Packets          client.go: how the client takes a server's packets (`dispatch_packet`); its
--                           child Handshake joins it with Receive
--   Client.Conns            client.go, `Client`: the connections to servers
--   Client.Names            client.go: how the texts of a request lead to them
--   Access                  hodu.go: who may call an HTTP endpoint (`HttpAuthConfig.Authenticate`)
--   Access.Config           cmd/config.go: the configuration of that from its texts
--   Jwt                     jwt.go: the tokens that it checks
--   Command.Split, Command.Escape
--                           client-cts-rxc.go: how a client splits a command line (`split_simple_command`)
--   Command.Profile         client-cts-rxc.go: how it expands the arguments of a profile
--   Transform               transform.go: the replacement of bytes in a stream
--   Bulletin.Queue          bulletin.go: the ring of messages of a `Bulletin`
--   Bulletin.Topics         bulletin.go: its subscribers, and who gets a message
--   Prelude                 Go slices and maps, booleans and integers, for all of them
-- Rxc.Job uses Rxc.Run for its runs; the last run that ends leads to `mark_done` in Rxc.Registry, which
-- pushes the job on the heap of Rxc.Expiry. Route.Peers, Conns and Sessions.Rxc take
-- their ids from IdPool. Lookup goes from the tables of Conns to those of Route. Access checks a token
-- with Jwt.
--
-- Numbers: a Go int that is never negative is a natural number, and an id has its width (2 ^ 32 or
-- 2 ^ 64) and wraps around. A statistic that is only added to, and a duration from the configuration,
-- is an integer. The lifetime of a route is a natural number: a negative one, and one for which the sum
-- of nanoseconds wraps around, is left out. Times are natural numbers, and the zero time is none.
--
-- Fuel: a loop of the heap takes at most as many rounds as the heap has entries, the purge loop one
-- more; the id loop one round for each id of its width; `Transform` one round more than the
-- source has bytes. The theorems on these functions show that this is enough.
--
-- Left out: the network and the operating system (the listener of a route, the outcome of which is an
-- argument), logs, events for observers, HTTP handlers, generated protobuf code, the sessions of
-- terminals and proxies, and how the client connects again. Base64, JSON, RSA and the
-- parsing of networks and durations are arguments of what calls them.
pub mod Prelude
pub mod Rxc
pub mod IdPool
pub mod Conns
pub mod Sessions
pub mod Lookup
pub mod Access
pub mod Jwt
pub mod Client
pub mod Command
pub mod PeerConn
pub mod Bulletin
pub mod Receive
pub mod Route
pub mod RouteOption
pub mod Transform
