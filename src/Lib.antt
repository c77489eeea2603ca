-- ===== src/Lib.antt =====
-- rfircd: an IRC server whose channels reach amateur radio stations over AX.25 packet radio.
--
-- A frame from the air comes through KISS (src/ax25/kiss.rs) as the octets of an AX.25 frame
-- (src/ax25/frame.rs, src/ax25/address.rs), whose information field is an AIRC frame
-- (src/airc/frame.rs); the sessions (src/airc/session.rs) acknowledge it, drop duplicates, put
-- fragments together and keep a table of stations, which also queues, cuts, sends and repeats what
-- goes the other way. The mailbox (src/server/mailbox.rs) holds messages for stations that are out
-- of range. The scheduler (src/ax25/scheduler.rs) says which frame goes next, and before it is
-- keyed, the airtime governor (src/ax25/airtime.rs) is asked whether it may be; the loop of the TNC
-- link (src/ax25/tnc.rs) calls both. Lines of IRC are parsed and printed by src/irc/message.rs,
-- connections admitted by src/irc/admission.rs, and src/policy.rs limits rates and cleans what goes
-- on the air. Callsigns (src/callsign.rs) name the stations on both sides.
--
-- The server (src/server/) keeps users, nicknames and channels in one state (src/server/state.rs), which
-- starts with the channels of the configuration (src/config.rs) and which the commands change. A stock
-- APRS radio talks to it by the messages of src/aprs.rs.
--
-- Files:
--   Prelude and its children: octets, text, tests, results with panics as values, and `HashMap` as
--     an association list in the unspecified order of its iteration.
--   Kiss: src/ax25/kiss.rs. Kiss/Decode, Kiss/Stream and Kiss/Bounds hold its proofs.
--   Callsign: src/callsign.rs. Callsign/Valid: what is constructed and how it reads back;
--     Callsign/Reserved: nicknames. Irc/Casemap: `lower` of src/irc/message.rs.
--   Ax25/Address, Ax25/Frame: src/ax25/address.rs and frame.rs, with Roundtrip and Accepts.
--   Airc/Frame: src/airc/frame.rs, with Roundtrip, Accepts and Fields.
--   Airc/Session: the state of src/airc/session.rs. Its children: Bitmap (`bit_set`,
--     `bitmap_from_parts`), Chunk (`chunk_payload`), Acks (`apply_ack` and what it calls), Receive
--     (`on_receive` on one peer), Table (`Sessions` and its operations), Tick (`tick_retries`),
--     Channels (the public state of a peer), Reachable (the whole as a state machine).
--   Ax25/Airtime: the governor of src/ax25/airtime.rs. Window: sums over bursts; Counts and Limits: the
--     governor over time; Query: `time_until_clear` and `check`.
--   Ax25/Scheduler: src/ax25/scheduler.rs. Queues and Bounds: writes of a queue, and the limits; Guards:
--     when a frame may go; Order and Best: which frame goes.
--   Ax25/Tnc: the loop `pump` of src/ax25/tnc.rs, which joins the governor and the scheduler. Limits:
--     what goes on the air; Keyed: what must hold for it; Frames: which frames wait. A turn is one
--     step: the source unlocks the scheduler while it awaits a write, and a push that falls in
--     between is not modelled.
--   Irc/Message: src/irc/message.rs. Scrub: what is left of a field; Params: the loop over the
--     parameters; Roundtrip: printing and parsing; Names: nicknames and channels.
--   Irc/Admission: src/irc/admission.rs; one call is one step, where the source lets the total go over
--     the limit between `fetch_add` and `fetch_sub`. Counts and Steps: the counts against the slots
--     that are held; Slots: any sequence of connections.
--   Policy: src/policy.rs. Limiter: the table of a rate limiter; Screen: the text that goes on the air;
--     Stations: who may use the gateway.
--   Server/State: src/server/state.rs. Names: the registry of nicknames; Views and Consistent: the two
--     records of who is where; Reach: the states that the operations reach; Moves: the operations
--     against a plain account of them; Flags: what a member may do, and which channels stay.
--   Server/Mailbox: src/server/mailbox.rs, with its Bounds and its Order.
--   Server/Setup: the channels that src/server/mod.rs makes from the configuration; Channels: what
--     becomes of each.
--   Server/Channels: JOIN, PART and KICK of src/server/commands/channels.rs. Guarded: who gets in.
--     Server/Commands: the comparison of secrets of src/server/commands/mod.rs.
--   Config: the records of src/config.rs. Defaults: what serde fills in; Direwolf: the cross-check of a
--     modem's configuration; Validate: `validate` and what is read afterwards; Sound: what is accepted;
--     Blames, Refusals and Faults: what is refused.
--   Aprs: the messages of src/aprs.rs. Control: acknowledgements.
--   Tests: concrete runs.
--
-- Conventions: `&mut self` is a value passed in and out. Octets and `u16`s are natural numbers,
-- with wrap-around written out where the code can reach it. Every index and slice that can panic is
-- a result, but for the index of a fragment in its reassembly (Airc/Session/Receive), which
-- `decode` has checked and which leaves the parts as they are where it is out of range; and
-- `Returns P r` says that `r` is no panic and that `P` holds of what it returns. A
-- `str` is the list of its code points. An `Instant` is a number on one clock, and `duration_since`
-- stops at 0. The loops are recursions on the list they walk over; `chunks` runs on as much fuel as
-- there are octets, which `join-chunk_payload` shows to be enough; the loop over the parameters of
-- an IRC line runs on as much as it has characters, for which see `parse_params-Loop`; the loop
-- over digipeaters runs on the room that is left under the code's own limit.
--
-- `f64` is an interface without laws (Prelude/Float), so that what is shown does not depend on how it
-- rounds.
--
-- Not modelled: sockets, TLS, files, the parsing of TOML, the interlock's command, the beacons of
-- APRS, the counters that are only shown, the server's event loop and its other commands.
pub mod Prelude
pub mod Kiss
pub mod Callsign
pub mod Irc
pub mod Ax25
pub mod Airc
pub mod Tests
pub mod Policy
pub mod Server
pub mod Config
pub mod Aprs
