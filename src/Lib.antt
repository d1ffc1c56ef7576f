-- ===== src/Lib.antt =====
-- The OxLens SFU: a media server for push-to-talk and conferences (crates/oxsfud), the gateway
-- before it (crates/oxhubd), the wire types that clients share with both (crates/oxsig), and the
-- bus between the nodes (crates/oxmesh).
--
-- A client's floor message arrives on a data channel, is decoded (crates/oxsig/src/dc.rs and
-- crates/oxsig/src/floor.rs) and given to the floor machine of its room
-- (crates/oxsfud/src/flr/core.rs) by crates/oxsfud/src/ops/floor.rs. The machine answers with
-- messages for the participants, which are encoded the same way, and with effects, which are
-- numbered by grant and bind or release the room's media slot (crates/oxsfud/src/flr/bind.rs).
-- What the slot's speaker sends is forwarded by a rewriter (crates/oxsfud/src/fwd/core.rs), which
-- hides the change of the source from the receivers. Signalling runs in frames
-- (crates/oxsig/src/frame.rs) that carry operations (crates/oxsig/src/op.rs), and the gateway
-- places each room on a node (crates/oxhubd/src/bus/placement.rs) and keeps a view of where the
-- rooms are (crates/oxhubd/src/bus/view.rs).
--
-- - Base: numbers, lists, bytes and tests that the other files share.
-- - Floor/Types to Floor/Timers: the machine of core.rs, one function for each of its functions
--   and with its names; Floor/Events: its entry points as events, and `fire_due` of ops/floor.rs.
--   A function that changes `self` takes and returns a floor, or a run, which is the floor
--   together with the step (messages, labels and effects) built so far. A function of the code
--   with many arms has a helper that takes what the code matches on (`part_a_arm`, `part_c_arm`).
-- - Floor/Framing to Floor/Reach: the invariant of the floor and the histories of a room;
--   Floor/Binding to Floor/Media: the effects of a history.
-- - Floor/Slot: the media slot. Floor/Numbering: the numbering of effects in `run` of
--   ops/floor.rs. Floor/Leave: the departure of a speaker who also waits. Floor/Order: the waiting
--   queue. Floor/Acked: releases. Floor/Delivery: `to_mbcp` and `from_mbcp`. Floor/Channel:
--   `dc_in`, where the rooms are a parameter.
-- - Wire/Frame, Wire/Op, Wire/Mbcp and Wire/DataChannel: the frames, the operations, the floor
--   messages and the frames of the data channel of crates/oxsig.
-- - Forward/Rewriter: the rewriter; Forward/Switch and Forward/Gapless: packets across a switch.
--   Forward/Octets: single bytes of a packet.
-- - Hub/Placement and Hub/Stable: the placement of rooms. Hub/View: what the gateway has seen on
--   the bus (crates/oxhubd/src/bus/view.rs), with the names of nodes, rooms and instances as
--   numbers in the order of the names, and the last event as a token; Hub/View/Dropped: histories
--   of tokens and settlings; Hub/View/Held: one settling. Hub/Maps: maps and sets in the order of
--   their keys.
-- - Rtcp/RecvStats: the statistics of received streams, where the type of the jitter, a floating-
--   point number in the code, and its operations are parameters; Rtcp/Sequence and Rtcp/Loss: the
--   streams that only move forwards. Rtcp/Twcc: the transport-wide feedback (`TwccRecv`), whose
--   map is a list in the order of its keys; Rtcp/Twcc/Unwrap and Rtcp/Twcc/Reading: its numbers
--   and what it tells, as a relation between the arrivals, the symbols and the deltas. `record` is
--   `record_arrival` here.
-- - Track/Keyframes: the recognition of key frames in crates/oxsfud/src/trk/mod.rs;
--   Track/Descriptors, Track/Packets and Track/Aggregates: VP8 and H.264 packets as their formats
--   say they are built.
-- - Mesh/Wire: the messages, the frames and the reassembly of crates/oxmesh/src/wire.rs, with the
--   cursor as the bytes that are left and a parameter that says which bytes are UTF-8.
--   Mesh/Session: the outbox and the reading loop of session.rs, and histories in which the one
--   writes and the other reads. Mesh/KeyExpr: the key expressions of keyexpr.rs as bytes, and what
--   they match as lists of chunks. Mesh/SubIndex: the index of subscriptions of core.rs, with its
--   maps and sets as functions. Mesh/Peering: which of two connections to the same node core.rs
--   keeps (`accept_verdict` and `on_ev`). Mesh/Tokens: the counts of tokens in core.rs (`tok_add`,
--   `tok_del`, and what calls them); Mesh/Tokens/Redeclared: a name that is declared again with
--   another expression. Mesh/Queries: the life of one query in core.rs (`route_get`,
--   `target_done`, `finish`, and its part in `on_tick` and `close`), with whether the outbox of
--   the session that asked refuses a message at the time.
-- - Link/Tcp: the framing of crates/oxsfud/src/link/tcp.rs; Link/Tcp/Out: `TcpOut::send` of
--   crates/oxsfud/src/fwd/rt.rs, with the answers of the socket as a list. Link/Stun:
--   link/stun.rs, with the MAC, the checksum and the reading of text as parameters;
--   Link/Stun/Build: its building of messages. Link/Creds: link/creds.rs, with the random bytes
--   given. Link/Transport: the state, the path and the pairs of a connection in link/mod.rs.
--   Link/Receive: the tables of the receiving thread in fwd/rt.rs and `datagram`, with the
--   connections numbered and what is done as a list of acts.
-- - Runs, in each folder, Mesh/RouterRuns, Mesh/QueryRuns, Link/BindingRuns, Rtcp/TwccRuns and
--   Hub/ViewRuns: concrete histories, messages and packets.
--
-- User ids are numbers, of which the code uses equality and the order of its maps; 0 is the empty
-- name. Other strings are their UTF-8 bytes. A map of participants is a function, and the set of
-- members an ascending list. Machine integers are natural numbers whose wrap-around is written out
-- where the code wraps or cuts; the loops of the modelled code go along a list or count down;
-- where one reads bytes or takes frames, its count is a bound on the rounds, and the theorems on
-- it say how much is enough.
--
-- Not modelled are the clocks and locks of ops/floor.rs, sockets, threads, DTLS, HTTP, JSON,
-- logging and configuration, and so far simulcast, congestion control, the routes of the node bus
-- (crates/oxmesh/src/core.rs) and the sessions of the gateway.
pub mod Base
pub mod Floor
pub mod Wire
pub mod Forward
pub mod Hub
pub mod Rtcp
pub mod Mesh
pub mod Link
pub mod Track
