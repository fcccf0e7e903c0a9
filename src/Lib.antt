-- ===== src/Lib.antt =====
-- VeilidHttp carries HTTP over Veilid's private routes. A request or response body is compressed
-- (crates/veilid-http-stream), cut into payloads (crates/veilid-http-core), framed
-- (crates/veilid-http-wire) and sent with acknowledgements and retransmission
-- (crates/veilid-http-engine); the bridge executes each transaction once
-- (apps/veilid-http-bridge), and Electron talks to the sidecar in frames of their own
-- (crates/veilid-http-ipc).
--
-- Which file models what (each folder holds the proofs about the file beside it):
--   Core/ReceiveWindow, Reassembler, FrameBatcher, SendWindow, RetryPolicy, TransactionJournal,
--     Compression, Error: the types of crates/veilid-http-core/src/lib.rs with their methods.
--   Wire/Frame, FrameType, Metadata, Bundle, Limits, Error: crates/veilid-http-wire/src/lib.rs;
--     Wire/Reader and Wire/Writer are the cursor and the buffer of the bytes crate.
--   Stream/Types, Error, Codec, Encoder, Decoder: crates/veilid-http-stream/src/lib.rs. The heads
--     in Stream/Types are those of crates/veilid-http-http/src/lib.rs. Stream/Transfer drives an
--     encoder and a decoder together.
--   Engine/Outgoing (OutboundBody, its queue and pump), Engine/Outgoing/Operations (its public
--     operations), Engine/Incoming (InboundBody), Engine/Error: crates/veilid-http-engine/src.
--   Ipc, Ipc/Credit: crates/veilid-http-ipc/src/lib.rs.
--   Http/Headers, Translation, Atomic, Error: crates/veilid-http-http/src/lib.rs.
--   Route, Transport: crates/veilid-http-route/src/lib.rs and the types of
--     crates/veilid-http-transport/src/lib.rs.
--   Bridge/Streaming (the state), Bridge/Streaming/Opening (handle_open), Messages (handle_message,
--     the cancellations, the end of a task), Responses (the response's part of run_upstream),
--     Bridge/Upstream (its request), Bridge/Bundling (send_encoded_frames and
--     split_frames), Bridge/Error:
--     apps/veilid-http-bridge/src/streaming.rs.
--   Bridge/Config (the configuration and the checks of main), Bridge/Atomic (forward_atomic),
--     Bridge/Atomic/Calls (handle_atomic_call): apps/veilid-http-bridge/src/main.rs.
--   Completion: CompletionStore of apps/veilid-http-bridge/src/completion.rs, and in
--     Completion/Protocol its users.
--   Prelude: texts as their UTF-8 bytes (Prelude/Text), numbers with the
--     saturating and checked operations of u16, u32, u64 and usize (64 bits), ordered and
--     hash maps as association lists, results, methods that may fail.
--
-- A method on `&mut self` is a function that answers the new state beside its result; after an error
-- the state is the one that the code leaves. A Rust panic is the outcome `panicked` where the code
-- reads through a cursor. Loops run on fuel: the number of waiting chunks for the reassembler and of
-- recorded numbers for the receive window, since each round removes one; the input's length for the
-- batcher, since each round takes a byte; the number of entries for eviction. Each bound is the
-- number of rounds that the source can make. The pump goes over the list of waiting items itself.
--
-- Each handler of the bridge is modelled as it runs when no other runs in between: it changes the table
-- of transactions, the completion store, the running tasks and the state of the world, which the transport
-- and the channels change. The bridge spawns openings and tasks, so that in the program others run at a
-- handler's awaits; what they do there is modelled for the completion store (Completion/Protocol), for the
-- waiting of handle_atomic_call and for openings during the end of a task only. A handler of
-- streaming.rs reads the store's clock once where the program reads it at each use.
-- A spawned task is known by its number from the start signal to its end. Trimming a text and
-- splitting a chunk run on the length, since each round takes a byte. The loop of handle_atomic_call
-- runs on fuel: each round that does not return is a sleep of at most 50 ms, which a notification can cut
-- short, so how many rounds are enough depends on how many notifications come.
--
-- The crates rmp_serde, zstd, blake3, base64, data_encoding, http, url and reqwest, the transport, the
-- asynchronous writer and the clock are parameters (Stream/Crates and the records of the modules that use
-- them), with their documented behaviour as hypotheses where a theorem needs it:
-- MessagePack reads back what it wrote, and a zstd decoder yields the original bytes. Not modelled:
-- the Veilid bindings, the event loop of the bridge's main.rs, sockets, processes, the
-- timers of the bridge's select loops, the client runtime of apps/veilid-http-native, the command line, the Electron application, and the JSON text of the
-- durable completion records.
pub mod Prelude
pub mod Wire
pub mod Stream
pub mod Engine
pub mod Ipc
pub mod Completion
pub mod Core
pub mod Http
pub mod Route
pub mod Transport
pub mod Bridge
