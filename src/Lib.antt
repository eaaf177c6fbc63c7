-- ===== src/Lib.antt =====
-- Sub0Log: binary logging into crash-tolerant segments. A segment is a region of memory (a mapped file
-- or a caller's storage) with a header, a claim cursor, and chunks. A thread claims a chunk and writes
-- records into it without a lock: payload first, then one head word that carries a commit tag. A
-- reader walks any image of a segment, hands out the committed records, and counts what it could not
-- read and what was never written.
--
-- Files, and what they model:
--   Wire          include/sub0log/wire.hpp: constants, kinds, flags, type codes, `paddedPayload`
--   Wire/Head     `RecordHead`: `pack`, `unpack`, `isCommitted`
--   Wire/SizeClass  `chunkBytesForSizeClass`, `sizeClassForChunkBytes`
--   Wire/Crc      the nibble table, `crc32`, `computeChunkHeaderChecksum`
--   Wire/Layout   the structures of the format, stored and loaded as little-endian bytes
--   Chunk         include/sub0log/chunk.hpp: `ChunkWriter::reserve`, `commit`, `remaining`
--   Segment       include/sub0log/segment.hpp: `createInMemory`, `claimChunk`, with `claimChunkIndex` of
--                 include/sub0log/detail/atomics.hpp
--   Reader/Header   include/sub0log/reader.hpp: `SegmentReader::open`
--   Reader/Body     `SegmentReader::visit`, its inner loop over the records of a chunk
--   Reader/Visit    `SegmentReader::visit`, its outer loop over the chunks
--   Args          include/sub0log/encode.hpp: `upperBoundSize`, `encodeArgs`; and the arguments that
--                 `Decoder::decodeAll` reads
--   Definitions   site and subsystem definitions: `parseSiteDefinition`,
--                 `parseSubsystemDefinition`, and the payloads that include/sub0log/detail/emit.hpp
--                 and include/sub0log/instance.hpp write
--   Decoder       `Decoder::decodeAll`: the site table, messages, continuation chains
--   Merge         include/sub0log/merge.hpp: aligned time, and the order of the merged stream
--   Json          include/sub0log/json.hpp: `appendQuoted`, `appendHex`
--   Publish       include/sub0log/detail/atomics.hpp: `storeHeadWord` and `loadHeadWord` in two halves, as
--                 interleaved steps of two threads
--   Severity      include/sub0log/severity.hpp: the levels
--   Logger        include/sub0log/instance.hpp: the `Logger` with one thread's writer: thresholds, counts,
--                 `currentWriter`, `refillWriter`; `reserveRecord`
--   Logger/Log      what the reader finds in the logger's segment
--   Logger/Claims   `refillWriter` and `currentWriter`
--   Logger/Reserve  `reserveRecord` and a record written through it
--   Logger/Threshold  the thresholds over several settings
--   Emit          include/sub0log/detail/emit.hpp: `writeSiteDefinitionCore`, the message of `emitRecord`; and
--                 `writeSubsystemDefinition`
--   Emit/Chain      `reserveChain`, with `rawBytesOf` of include/sub0log/encode.hpp
--   Emit/Publish    `emitChained`, `emitRecord`
--   Emit/Slices, Emit/Chained   the slices of a long argument, and their reservations
--   Emit/Define, Emit/Messages, Emit/Outcome   the definition, the message and the chain of a call
--   Emit/Described, Emit/Whole   what `emitChained` makes of a pack, told without its code, and that it does
--   Emit/Ledger     calls of `emitRecord` one after the other
--   Instance      include/sub0log/instance.hpp: `createInMemory`, `stats`, `usage`, binding, moving
--   Child         include/sub0log/child.hpp: the records of a child, line capture, the Windows command line
--   Child/Lines, Child/Ledger   the lines of a captured stream, and what becomes of them
--   Abi           include/sub0log/abi_host.hpp: the announce table and the functions that a plugin calls
--   Abi/Lookup, Abi/Emitted   the table's answers, and what becomes of a plugin's record
--   Protocol      writer and reader together
--   Tests         concrete runs
--
-- Memory is a list of bytes; a pointer is an offset into it. Machine integers are natural numbers with
-- the wrap-around of the source written out. The callback of `visit` is the list of views that it is
-- given, in order.
--
-- The producer of records is one thread: a logger, that thread's cached writer, the readings of the
-- clock that are still to come, and the chunks that it has left behind. What other threads wrote is not
-- part of it, and a theorem on a producer speaks of one thread. The body of a claimed chunk, a span into
-- the segment in the source, is the writer's own copy of these bytes, which no other claim hands out and
-- nothing else writes; what the reader finds of a thread is `visit_body` of these bodies in the
-- order of their claims, not `visit` of the segment's image. A body's records do not depend on where it
-- stands (Logger/Log).
--
-- Loops run on fuel. `visit_body` gives the inner loop one round more than the body has bytes, and
-- `visit` gives the outer loop two rounds more than the image has bytes; running out is `none`, and
-- the theorems on them show that this is never the answer. `slices` gets as much fuel as the
-- argument has bytes behind its first 512, and takes at least one in each round. The probes of the
-- announce table are the 32 of the source.
--
-- Not modelled: operating-system calls (mapping files, clocks, thread and process ids, fork handlers,
-- starting, signalling and waiting for child processes, their pipes), whose answers are arguments
-- where the code uses them; the compile-time checks on argument types; the compare-exchange loops
-- between several threads; correlation scopes; text formatting, the check of UTF-8 and the JSON object
-- around the quoted strings; and the command-line tools.
-- The conversion of a `float` to a `double` is a parameter of the decoder.
pub mod Common
pub mod Wire
pub mod Chunk
pub mod Segment
pub mod Reader
pub mod Args
pub mod Definitions
pub mod Decoder
pub mod Merge
pub mod Json
pub mod Publish
pub mod Severity
pub mod Logger
pub mod Emit
pub mod Instance
pub mod Child
pub mod Abi
pub mod Protocol
pub mod Tests
