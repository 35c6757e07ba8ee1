-- ===== src/Lib.antt =====
-- Earendil, a packet-routing overlay network: relays gossip a signed graph of who is linked to whom, a
-- sender picks a shortest route in it and sends an onion of ten layers along it, and a receiver answers
-- anonymous senders through reply blocks that were sent to it before.
--
-- The program's parts and where they are modelled. Paths are from the repository's root.
--
-- - libraries/earendil_crypt/src/lib.rs: identities (`public`, `sign`, `verify`, `fingerprint`) in Crypto.
-- - libraries/earendil_packet/src: packets. Packet.Types has the data of crypt.rs, inner.rs, raw.rs and
--   reply_block.rs; Packet.Crypt has boxes and the stream cipher; Packet.Inner `encode` and `decode`;
--   Packet.Raw `new_normal`, `new_reply` and `peel` with `wrap_layer` for a turn of their loop, and below
--   it Raw.Layers, Raw.Build and Raw.Onion what peeling does to a layer and to a whole onion;
--   Packet.Reply reply blocks and the degarbler (`new_block`, `degarble`); Packet.Delivery the way of a
--   packet from its sender to its receiver and back.
-- - libraries/earendil_topology/src/lib.rs: Topology.Graph has the relay graph, its descriptors, and
--   `insert_identity`, `insert_adjacency`, `cleanup`, `adjacencies`; Topology.Invariant what a
--   well-formed graph is, with its lemmas; Topology.Search `find_shortest_path` and
--   below it what it finds; Topology.Queries what the queries list.
-- - src/daemon: Daemon.ReplyBlocks is reply_block_store.rs, Daemon.Neighbors is neightable.rs,
--   Daemon.State the fields of context.rs, Daemon.Send `send_n2r` and `send_reply_blocks` of context.rs
--   with `route_to_instructs` of daemon.rs and rrb_balance.rs, Daemon.Peel one turn of peel_forward.rs;
--   Peel.Gone and Peel.Once follow an identifier whose degarbler was taken.
-- - src/daemon/link_protocol.rs, link_connection.rs and gossip.rs: Links.Protocol what a relay answers its
--   neighbours, Links.Gossip a round of gossip, Links.Connection how a link is set up and what it carries,
--   and beside them their lemmas.
-- - src/haven_util.rs, src/daemon/dht.rs, src/global_rpc/server.rs and the rendezvous loop of
--   src/daemon.rs: Havens, with Havens.Locators for what havens sign, Havens.Table for the distributed
--   table and its server, and Havens.Forward for the relay between havens and clients.
-- - src/socket/n2r_socket.rs: Socket.N2r, how a socket is bound, sends, and receives.
-- - src/socket/crypt_session.rs: Havens.Session, the task of an encrypted session as a state (`Phase`) with
--   its events `start_task`, `receive` and `transmit`; below it Session.Handshakes, Session.Talk and
--   Session.Streams what the events do. src/socket/haven_socket.rs: Havens.Sockets, with Sockets.Refuses
--   for whose sessions a socket has, and Sockets.Conversation, Sockets.Delivers and Sockets.Arrives for a
--   client, a relay and a haven that talk.
-- - src/stream/listener.rs: Streams, the table of the listener that gives packets to the streams of their
--   senders; Streams.Clients what it does for each client. src/stream.rs: Streams.Connect.
-- - src/socket.rs: Control has the sockets of either kind, and Socket.Endpoints the text of an endpoint.
--   src/daemon/control_protocol_impl.rs: Control, the table of sockets, and below it what binding does.
--   src/global_rpc/transport.rs: Socket.Calls.
-- - src/daemon/socks5.rs and the simple proxy of src/haven_util.rs: Proxies. src/daemon/udp_forward.rs and
--   udp_forward of src/haven_util.rs: Forwarding. `actualize` of src/config.rs: Identity.
--   shadow-tests/gen-earendil-shadow/src/main.rs: Simulation.
-- - Tests: ciphers, a coder and a world that can be run, and the theorems at concrete inputs.
--
-- How the parts meet. A daemon's state is one record (Daemon.State.State): its keys, the relay graph, the
-- reply blocks for others (ANON_DESTS), the degarblers for its own, the balance of blocks, the table of
-- neighbours and the queues of its sockets. A handler is an Action, a function from a state to a result
-- and a state; a result is ok, an error or a panic, and a handler that fails keeps what it changed before.
-- Sending puts an onion into the queue of incoming packets as if it came from a neighbour; the peel loop
-- takes it out, peels one layer and gives it to a neighbour, to a socket, or to the store of blocks.
--
-- Numbers are natural numbers with the bounds of the source written out: fingerprints below 256^20, keys
-- below 256^32, numeric identifiers below 2^64 with `cleanup`'s difference of times taken modulo 2^64.
-- Byte strings are lists. Maps are association lists with one entry for each key. Random draws are a
-- stream in the state. Time is an argument.
--
-- Fuel. The search of find_shortest_path has fuel for one turn per node with neighbours and two more, its
-- trace back for one step per visited node and one more; replenish_rrb for one turn per missing block and
-- one more; the loop of an identity file for two turns; a batch for one round per body; recv_from for one turn per pending message and one more. The
-- drawing of a dock has no such bound, since it ends by chance.
-- Running out is a result of its own (`out_of_fuel`, or a panic of `send_n2r`).
--
-- Code outside of the repository is a parameter. Crypto.Primitives is blake3, ed25519, x25519,
-- chacha20poly1305 and chacha20, and Crypto.IsLawful what is relied on: lengths, that opening undoes
-- sealing, that two sides agree on a secret, that a signature verifies. Packet.Types.Codec is bincode, and
-- IsCodec that decoding undoes encoding, also with bytes after it. Topology.Graph.StdCode is stdcode.
-- Daemon.External has the lru cache (it may evict) and bounded channels (they hold as
-- many items as they were made for; what is left in a closed one can still be received).
-- Havens.Session.ReplayFilter is the crate replay_filter, and IsReplayFilter that it accepts no number twice
-- and one above all that it accepted; IsSessionCode is that stdcode decodes what it encoded.
-- Streams.StreamCrate is sosistab2. Socket.Endpoints.Base32 is the crate base32, and IsBase32 that it decodes
-- what it encoded, in lower case, and writes no colon. Proxies.Relays.IsLossy is what is relied on of
-- from_utf8_lossy, and Links.Connection.PacketBytes the casts of bytemuck. Argon2 and
-- the generation of identities are functions.
-- Links.Gossip.Peer is whatever a neighbour answers, and Havens.Table.DhtAnswer what a replica does. The
-- hypotheses hold of the instances in Tests.
--
-- Not modelled: the tasks, timers and transports (src/daemon.rs, the pipes of link_connection.rs,
-- inout_route.rs), whose turns are the handlers above; the copying of bytes between sockets of the operating
-- system; the parsing of configurations and commands; what the control protocol renders as text; tests.
-- Reply blocks and degarblers do not expire by time within a handler. Secrecy against an attacker is not
-- stated: the primitives have no adversary.
pub mod Base
pub mod Crypto
pub mod Packet
pub mod Topology
pub mod Daemon
pub mod Links
pub mod Havens
pub mod Socket
pub mod Streams
pub mod Control
pub mod Proxies
pub mod Identity
pub mod Simulation
pub mod Forwarding
pub mod Tests
