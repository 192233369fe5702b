-- ===== src/Lib.antt =====
-- Verification of smpp-js, an SMPP 3.4 client and server in TypeScript (src/).
--
-- A session reads a stream of octets. The framer cuts it into PDUs, the codec reads each one by the
-- table of its command, and the session answers it. Requests that go out wait for the link (link
-- life), then for a slot of the send window, and carry a sequence number until they are answered.
-- Messages in several segments, and their receipts, are collected in expiring groups.
--
-- The files, and the code that each is about:
--
-- - Framer: `PduFramer` of src/pdu-framer.ts, and `framingRefusal` of src/pdu-refusal.ts.
-- - Groups: `ExpiringGroups` of src/expiring-groups.ts.
-- - Window: `SendWindow` of src/send-window.ts with `IdleWaiters` of src/idle-waiters.ts.
-- - LinkLife: `LinkLife` of src/link-life.ts.
-- - SmsId: `normaliseSmsId`, `segmentId` and `parseSegmentId` of src/sms-id.ts.
-- - Wire: the field types of src/defs/types.ts, by their values and errors (Wire), the integers
--   (Wire/Ints), the texts and buffers (Wire/Texts) and the address arrays (Wire/Arrays).
-- - Constants: src/defs/constants.ts.
-- - Encodings: the alphabets of src/defs/encodings.ts.
-- - Message: `encodeBody`, `decodeMessage` and `splitMessage` of src/message.ts.
-- - Defs: the tables of src/defs/commands.ts (Defs/Commands) and src/defs/errors.ts (Defs/Errors), and
--   src/defs/tlvs.ts (Defs/Tlvs), with `writeTlvs` and `parseTlvs` in Defs/Tlvs/Codec.
-- - Pdu: src/pdu.ts. The header, the framing check and the mandatory parameters are in Pdu, `objToPdu`
--   in Pdu/Build, `pduToObj` and `pduReturn` in Pdu/Parse, with `refusalAnswer` of src/pdu-refusal.ts.
-- - Udh: `ConcatReference` and `concatInfo` of src/udh.ts.
-- - Pending: `PendingRequests` of src/pending-requests.ts.
-- - Retained: the parsed PDU of src/pdu.ts, with src/retained-pdu.ts and src/message-body.ts.
-- - Reassembly: `Reassembler` of src/reassembly.ts, on the expiring groups. The group that the source
--   changes in place is put back under its key (`hold`).
-- - Received: `concatOf` of src/concat.ts, and `decodeSegments` of src/reassembly.ts.
-- - SessionOptions: src/session-options.ts, the check of the options, with the window and the
--   reconnect loop that are made from them.
-- - DlrMerger: `DlrMerger` of src/dlr-merger.ts, on the expiring groups and the ids of SmsId.
-- - Reconnect: `ReconnectLoop` of src/reconnect-loop.ts; `connect` and `onConnected` are the
--   application's, and the calls say how each settled.
-- - Prelude: the names of the standard libraries that the files share, tests, lists, association
--   lists (for `Map` and records by name), digit strings and results.
--
-- A function of the source has the name of its definition in snake case. An object is a record, and a
-- method is a function of the record before it to the record after it, with what it returns. A Buffer
-- is the list of its octets, a text the list of its UTF-16 code units, save for the names of commands
-- and parameters, which are strings. A `Map` is an association list in insertion order. An object
-- by name is one too: `writeTlvs` takes the list that `Object.entries` makes of its inputs, numerals
-- first, and what `parseTlvs` makes is only found by key, so the order of its list stands for nothing. A
-- clock is an argument, in milliseconds. A promise is the answer that some later call lists for its
-- caller; a timer that fires and a signal that aborts are calls.
--
-- The loops without an evident bound run on fuel: the framer on the number of octets held, because
-- each round takes at least 16 of them, the eviction of groups on the number of groups held, because
-- each round takes one, and the walk over a user data header on its length, because each round moves
-- on by two octets at least, and the loop over TLVs on the length of the PDU, because each round moves
-- on by four. `none` is the run out of fuel, and in Udh also a read past the end, which throws.
--
-- Left out: sockets, logging and random identifiers; the dates of `smppDate` and `smppTime`, which rest
-- on the platform's calendar; and so far the layers above these components: the reading of receipts,
-- the sessions, clients and servers. A TLV key is a name or a canonical decimal numeral; an input is
-- taken by what `isTlvInput` says of it. A data_coding that is a number but no whole one from 0, which
-- the source reads by its low bits, is an error of its own in Pdu/Build.
mod Prelude
pub mod Framer
pub mod Groups
pub mod Window
pub mod LinkLife
pub mod SmsId
pub mod Wire
pub mod Defs
pub mod Pdu
pub mod Udh
pub mod Pending
pub mod Retained
pub mod Reassembly
pub mod Reconnect
pub mod Constants
pub mod Encodings
pub mod Message
pub mod Received
pub mod DlrMerger
pub mod SessionOptions
