-- ===== src/Lib.antt =====
-- The aurora core in antt: the wire format, the frames of the protocol, packets, their keys, sealing
-- and receiving, the flows and the scheduler of outgoing chunks, and records on a stream, each
-- translated from the Go source.
--
-- Parts, and the files that model them:
--   wire/varint.go, encoder.go, reader.go: Wire.Varint, Wire.Encoder, Wire.Reader. An encoder and a
--     reader keep the first error; each method is a function of the state, and a chain of method calls
--     is a do block. Wire.Format describes formats: what a writer appends (Writes), what a writer
--     that ends without an error was given (Passes), what a reader takes (Reads), writer and reader
--     together (Codes), and decoders that accept one encoding (Parses).
--   protocol/types.go, vector_limits.go: Protocol.Extensions.
--   protocol/frames.go: Protocol.Frames (frames and blocks), Protocol.KeyUpdate, Protocol.Route,
--     Protocol.Flows (payloads and their validation), Protocol.Validate (validation of frames, with
--     what it accepts in Validate.Accepted and the payload decoders in Validate.Payloads).
--   protocol/records.go, bootstrap.go, directory.go, admission.go, issuer.go: Protocol.Records,
--     Protocol.Preludes, Protocol.Capsules, Protocol.Routing, Protocol.Templates,
--     Protocol.CoverProfiles, Protocol.Admission, Protocol.Policies, Protocol.Issuer and
--     Protocol.Verifier, the records and their codecs, each with a child Codec that relates the two;
--     Protocol.Optional for fields behind a flag.
--   registry/registry.go: Registry, the constants that the frames use.
--   crypto/hash.go, hkdf.go, aead.go, control.go: Crypto.Suite, Crypto.Aead, Crypto.Control. Crypto has
--     the record of operations that stands for Go's crypto library (Primitives) and the documented
--     behaviour that theorems rest on: an AEAD opens what it seals and adds a tag of 16 bytes (IsAead),
--     and ChaCha20-Poly1305 takes keys of 256 bits only (TakesKeys). The length of AES keys is checked
--     by the code.
--   packet/packet.go: Packet.Codec, and Packet.Protector for sealing and opening (Sealing, InPlace,
--     Opening; Cache, RoundTrip and Encoded for what is proved of them).
--   packet/onion.go: Packet.Onion (the packet inside a ROUTE_FORWARD frame) and Packet.Onion.Split
--     (sealing for the exit and then for the entry; Layers for what is proved of it).
--   packet/key_update.go: Packet.KeyPhase (the keys of a phase), Packet.Direction (the state of a
--     direction; Steps, Phases, Keys and Agreement for what is proved of it).
--   packet/receiver.go: Packet.Window, the ring bitmap of the packet numbers a receiver accepted, and
--     Packet.Receiver, the receiver with a window for each space (Directions for opening with the keys
--     of a direction; Once, Bounds and Sessions for what is proved of it).
--   transport/record.go: Transport.Record (Streams for writing, Reading for reading).
--   carrier/codec.go: Carrier.
--   flow/scheduler.go: Flow.Scheduler. flow/flow.go: Flow (priority classes), Flow.State, Flow.Opening,
--     Flow.Manager (the operations on the map of flows, each of which the code runs under one lock).
--   Common, Errors: shared lemmas, and Go's (value, error) pairs as results.
--   Tests: runs of the code, and the theorems at concrete inputs.
-- A packet carries a frame block once it is opened; a block's validation decodes the payloads of its
-- control frames with the readers of wire/. A protector seals a block under the nonce of its next packet
-- number; a receiver takes a direction's keys for the packet's phase, checks the number against the window
-- of its space, opens the packet and marks the number when the opening is committed.
--
-- How the code is represented. Integers are natural numbers; where the source wraps, the remainder is
-- written out (a key phase is successive mod 2^16, as the Go expression computes it), and int has 64
-- bits (max_int). A slice is a list, and a field of a bounded Go type may hold any number where no
-- theorem needs the bound; where one does, it asks for bytes below 256. An error is a constructor for
-- its message, without the numbers that the message prints; the label argument of ReadVectorCount only
-- feeds such a message and is dropped. Capacity hints of the encoder change no value. Views and copies
-- of a slice are the same list. Loops over a slice are structural recursion, and loops over a count
-- recurse on the count. One loop has fuel: writeRecordBytes writes at least a byte in a round that goes
-- on, so the length of the bytes is enough. A method that changes its receiver returns it, also with an
-- error. Time is a count of nanoseconds.
--
-- Not modelled: the zeroing of keys and plaintext, locks and use counts of protectors (each call is taken
-- to end before the next), nil protectors and one protector used for both hops of a split, openings
-- that reuse the packet's storage, the fake address allocator, the validation of the records of
-- protocol/ outside frames.go and those that hold vectors of records, sessions, admission, routes,
-- relays, and everything that does input and output.
pub mod Common
pub mod Errors
pub mod Registry
pub mod Wire
pub mod Crypto
pub mod Protocol
pub mod Packet
pub mod Flow
pub mod Transport
pub mod Carrier
pub mod Tests
