-- ===== src/Lib.antt =====
-- Verification of crust, a library for reliable peer-to-peer connections.
--
-- A socket (crust/src/net/socket.rs) is the owner's half of a TCP connection: what it sends goes
-- over a channel to a task, which keeps a queue by priorities, drops what is too old, and writes to
-- the framed stream until a shutdown comes. A peer (crust/src/net/peer/peer.rs) is a socket behind
-- a handshake, with heartbeats and a limit on silence. Peers come from handshakes: the bootstrap
-- acceptor (crust/src/net/peer/connect/bootstrap_acceptor.rs) judges the request that try_peer
-- (crust/src/net/peer/connect/bootstrap/try_peer.rs) sends, by the configuration
-- (crust/src/config.rs). Listeners (crust/src/net/listener.rs) give the incoming sockets and keep
-- the set of addresses to advertise; the demultiplexer (crust/src/net/peer/connect/demux.rs) routes
-- them by their first message. Peers on the local network are found by datagrams
-- (service_discovery/src). The connection map (crust/src/compat/connection_map.rs) holds
-- the connected peers together with the tasks that read from them, and the event loop of the
-- compatibility service (crust/src/compat/service.rs, event_loop.rs) runs the owner's commands on it
-- and spawns the tasks that bootstrap, listen and connect. Two peers that know each other's connection
-- info connect by a rendezvous (crust/src/net/peer/connect/connect.rs), over listeners, direct
-- connections and hole punching (crust/src/net/nat). All of this is behind crust/src/service.rs and
-- crust/src/net/peer/acceptor.rs.
--
-- Base           lists, results, sets as lists, Boolean tests over the native numbers.
-- Addr           crust/src/util/util.rs, crust/src/common.rs, crust/src/net/peer/uid.rs:
--                ipv4_addr_is_global, ipv6_addr_is_global, ip_addr_is_global, CrustUser, Uid.
-- Net            I/O errors, the codec, SocketError, and first_ok as `Race`.
-- Socket         crust/src/net/socket.rs. Queue is the BTreeMap of SocketTask with `push_back` and
--                `expire`; Task is SocketTask with `receive`, `drain` and `poll`; Front is Socket
--                with wrap_tcp, peer_addr, poll, start_send and the drop of Inner.
-- Peer           crust/src/net/peer/peer.rs: from_handshaken_socket, addr, ip, start_send and poll;
--                `send_heartbeats` and `read` are the two loops of poll.
-- Config         crust/src/config.rs: ConfigSettings, ConfigWrapper::reload, the watching thread of
--                open_path as `monitor`, a write guard's life as `write`, network_name_hash,
--                is_peer_whitelisted.
-- Handshake      crust/src/net/peer/connect/handshake_message.rs and ext_reachability.rs.
-- Bootstrap      Accept is bootstrap_accept and grant_bootstrap; Try is try_peer and
--                bootstrap_connect_handshake; Both is about the two sides together.
--                Acceptor is the stream BootstrapAcceptor over the handshakes in flight. Search is
--                `bootstrap` of bootstrap.rs with the Cache of cache.rs: try_at is one attempt, and an
--                address that gives nothing within the time limit is `none`.
-- ConnectionInfo crust/src/net/peer/connect/connection_info.rs.
-- Connect        crust/src/net/peer/connect/connect.rs: validate_connect_request and connect, whose
--                parts are `handshake` on a connection each way around, `choose` for the side with the
--                greater uid and `be_chosen` for the other. The white list filters the addresses that
--                we connect to, and no connection that comes in. Peers, Settled, Live, Offered,
--                Listed, Unlisted, Roles and Both are about it.
-- HolePunch      crust/src/net/nat/hole_punch.rs: tcp_hole_punch.
-- Nat            crust/src/net/nat/mapping_context.rs and mapped_tcp_socket.rs: MappingContext::new,
--                expand_unspecified_addr, add_peer_stuns, mapped_tcp_socket.
-- Acceptor       crust/src/net/peer/acceptor.rs, with Listeners::listener over a mapped socket.
-- Advertise      crust/src/net/service_discovery.rs: ServiceDiscovery::new and its task, `forward`.
-- Service        crust/src/service.rs, one function per method.
-- WithTimeout    tokio-utils/src/with_timeout.rs: WithTimeout::poll; `run` is a row of polls.
-- Stun           crust/src/net/peer/connect/stun.rs: stun and stun_respond.
-- Demux          crust/src/net/peer/connect/demux.rs: bootstrap_acceptor, connect up to its handshake
--                as `register`, and handle_incoming.
-- ServiceDiscovery
--                service_discovery/src: Server is server.rs with ServerTask::poll, Discover is
--                discover.rs with Discover::poll; Exchange is about both together.
-- SerdeUdpCodec  tokio-utils/src/serde_udp_codec.rs: encode and decode.
-- Compat         Event is crust/src/compat/event.rs. Map is ConnectionMap: one function per method,
--                `receive` and `finish` for the steps of a reading task; Map.Steps has its runs.
--                Service is ServiceState with one function per command and per end of a task that a
--                command spawns; Service.Runs has the runs of the event loop, where `call_box` is one
--                command, and what happens to a task is an argument of its step.
-- Listener       crust/src/net/listener.rs: Listeners::listener and addresses, SocketIncoming::poll.
-- Tests          concrete parameters, and the theorems at concrete inputs.
--
-- State is passed explicitly, and errors are values. A future is the value that it resolves to, and
-- a poll is a function from the state and from what the polls below it give. Times are natural
-- numbers of milliseconds; every reading of the clock is an argument. The subtraction of two times
-- is that of natural numbers: the source subtracts an earlier time only. Sets and maps are lists,
-- asked for membership; the order of a hash map is not a subject of any theorem. Priorities are
-- numbers, of which the source has those below 256, and nothing rests on that bound.
--
-- Fuel: `send_heartbeats` takes a bound on the turns of its loop. Three turns end it as long as the
-- clock is quick. `walk` of Listener takes a bound on its
-- turns, and as many turns as there are listeners end it. All other loops are structural recursion
-- on what they consume.
--
-- Parameters, for code that is not here: the framed transport of tokio, the codec of
-- maidsafe_utilities, timers of tokio_core, sha3_256, first_ok of future_utils,
-- FuturesUnordered of futures, connecting to an address, the search for gateways and the replies of
-- other machines, the file handler of the cache, and what a configuration file holds.
--
-- Not modelled: the sockets of service discovery, the thread of the event loop with its channels, the
-- other wrappers of timers in tokio-utils, and the wrapper of the gateway library. Logging, locks,
-- threads and the texts of errors are left out as I/O.
pub mod Base
pub mod Addr
pub mod Net
pub mod Config
pub mod Socket
pub mod Peer
pub mod Handshake
pub mod ConnectionInfo
pub mod HolePunch
pub mod Nat
pub mod Connect
pub mod Acceptor
pub mod Advertise
pub mod Service
pub mod WithTimeout
pub mod SerdeUdpCodec
pub mod Listener
pub mod Bootstrap
pub mod Stun
pub mod Demux
pub mod Compat
pub mod ServiceDiscovery
pub mod Tests
