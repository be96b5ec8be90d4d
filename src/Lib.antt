-- ===== src/Lib.antt =====
-- A model of VTR, a trace format for hardware simulations: its library vtr-rs.
--
-- A recording is a container (vtr-rs/src/framing.rs): a header, sections, a directory and a trailer. A
-- `FramedWriter` appends sections and closes the file by `finish`; `Container::parse` reads it by the
-- directory, or, where the file was cut, by a scan of the complete sections; `recover` copies what the scan
-- found into a new file. Sections hold columns (vtr-rs/src/wire.rs) of integers (vtr-rs/src/varint.rs), and
-- most of them are compressed blobs (vtr-rs/src/codec.rs).
--
-- Files:
-- Prelude     numbers, lists, bytes and bits that the others share.
-- Error       vtr-rs/src/error.rs. `?` is the operator `>>=` and the do block.
-- Wire        Varint and Zigzag are vtr-rs/src/varint.rs, Cursor and Columns are vtr-rs/src/wire.rs.
-- Codec       vtr-rs/src/codec.rs; Codec.Blob is `compress`, `decompress` and `decompress_any` of
--             vtr-rs/src/wire.rs.
-- Framing     vtr-rs/src/framing.rs: Writer is `FramedWriter`, Container the reader's operations, Parse is
--             `Container::parse` and `recover`. Image describes a file by its list of frames, and Session a
--             whole recording, from the new writer to the opened file.
-- Xform       vtr-rs/src/xform.rs: the transforms' names and the decoder of dictionary coding.
-- Signal      vtr-rs/src/signal.rs: packed logic values and their text.
-- Block       vtr-rs/src/block.rs: the header of a waveform block and the search in its index.
-- Trace       Cache is vtr-rs/src/trace/cache.rs.
-- Transactions  Bounds is `TransactionBounds` of vtr-rs/src/transactions/mod.rs, Query its queries, its validation
--             of a transaction and the bounds of a block's pages, Time is vtr-rs/src/transactions/time.rs, and
--             Time.Ends how vtr-rs/src/transactions/page.rs writes a stage's end.
-- Activity    vtr-rs/src/activity, the sidecar that says when a signal changes: Control is control.rs with its
--             runs as a step relation, Scan is scan.rs, Format is format.rs, Container is container.rs with
--             its writer to a list of bytes and, in Output, to any output, and Index
--             is the reader and the queries of index.rs.
-- Schema      Payload is the trait of vtr-rs/src/schema.rs, as a record of its two directions, with the bindings of
--             integers, bool, String and Vec; Payload.Lawful is what a binding promises, and Payload.Bindings all
--             that these make together.
-- Recording   vtr-rs/src/recording: Gate is the handshake of channel.rs between enter and close, PayloadPool is
--             payload_pool.rs, and Ending is ending.rs. Threads are step relations.
-- Tests       the theorems at concrete inputs.
--
-- Representation: a `u8`, `u32`, `u64` or `usize` is a natural number with its bound as a hypothesis where it
-- matters, `usize` has 64 bits, and an `i64` is its bit pattern. Wrapping and checked arithmetic is written
-- out. Byte vectors and slices are lists. A reader or cursor is passed on and returned; where a call fails,
-- the error alone is returned, since every caller hands it on and drops the reader. A writer whose call
-- failed is not used again.
--
-- Loops: `put_u64` runs by well-founded recursion on its value and the recovery scan by that on the bytes
-- left, so neither has fuel. The cache's eviction is recursion on its order, the loops over rows on their count; the binary
-- search of a block's index has one round for each entry, and each round takes one off the interval at least. `Reader::u64` has the ten rounds of its own `for` loop. `len_u64` counts 64 bits.
--
-- Parameters: LZ4 and zstd are the record `Backend`, with the losslessness of Codec.RoundTrip.IsLossless as
-- a hypothesis; `crc32fast::hash` is a function whose values have 32 bits; what implements `Write` is a
-- `Sink`, whose writes fail or append; the random source is its answer. `std::str::from_utf8`'s test is the
-- parameter `valid`; the order in which threads access shared memory is that of a run of their step relation.
--
-- Not modelled: the producers, the rings of the channels and the spools of vtr-rs/src/recording, the readers of vtr-rs/src/trace
-- other than the cache, the declarations and the record layers, the groups and the encoder of waveform blocks, the pages of transactions, the encoder
-- of dictionaries and the other transforms of vtr-rs/src/xform.rs, the builder of the activity index, and the crates around
-- vtr-rs. Memory maps, paths and zstd contexts belong to the operating system and to memory management.
pub mod Prelude
pub mod Error
pub mod Wire
pub mod Codec
pub mod Framing
pub mod Signal
pub mod Xform
pub mod Block
pub mod Trace
pub mod Transactions
pub mod Activity
pub mod Schema
pub mod Recording
pub mod Tests
