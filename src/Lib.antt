-- ===== src/Lib.antt =====
-- tcslog keeps a log as a set of segment files in one directory. This library models the Rust crate
-- tcslog, its writer, its reader and the formats that they share, and two crates that stand on it,
-- the C interface tcslog-c and the generator of test logs tcslog-gen.
--
-- Parts and files:
-- - Bytes: little-endian numbers. SeqId, SegId: tcslog/src/seq_id.rs and segid.rs; both are `u64`s.
-- - Format, Header: tcslog/src/format.rs and header.rs: record layouts, and the 53-byte header that
--   opens each segment file.
-- - Names: tcslog/src/util.rs: the checks of a log's location, file names, and the directory scan.
--   Names/RoundTrip and Names/Scan are about the latter two.
-- - Error: tcslog/src/error.rs, and the result of a step. Exec: steps on a state that may fail, with
--   rules of total correctness in Exec/Post, of partial correctness in Exec/Partial, and of steps
--   whose result is known in Exec/Run.
-- - Fs: what the crate uses of std::fs and std::time; Fs/Ends, Fs/Frame and Fs/Working are about how
--   its operations end, what they leave, and what they do where all work, and Fs/Ticks about naps.
-- - Read: tcslog/src/read.rs. Read/Open holds open_validated, open_next and find_record_start;
--   Read/Cross holds cross; Read/Fill holds fill, skip and read_data_header; Read/Record holds read.
--   Read/Sound states the invariant, and Read/Opening, Read/Search, Read/Finding, Read/Crossing,
--   Read/Arriving, Read/Filling, Read/Skipping, Read/Heading and Read/Total carry it through the
--   code. Read/Gap is about the sequence check of cross. Read/Iter has one round of the iterator's
--   loop and Read/Next the loop. Read/Stream and its children follow the bytes of a session of which
--   nothing is missing through its segment files: Read/Stream marks each byte of the stream with
--   what its record owes there and says when a reader stands at a place of it, Read/Stream/Entering,
--   Crossing, Filling, Decoding, Reading and Starting carry it through the code where every file
--   operation works, and Read/Stream/Records reads all records of a session. Read/Spend and its
--   children measure what a reader has ahead of it: the segment files pending with all that is in
--   them, what is unread of the open one, and the session. The loop of the iterator runs on fuel
--   above that measure, which is enough fuel since the measure is made to fall with each round. The
--   function collect of Read/Next stands for the standard library's, and read_each of
--   Read/Stream/Records for a caller's loop.
-- - Clock: the clock of tcslog/src/write.rs. Write: the rest of that file. Write/Files creates,
--   closes and hands over segment files; Write/Record writes a record; Write/Session opens, clears,
--   flushes and drops a log. Write/Count, Write/Minting, Write/Widening, Write/Retrying and
--   Write/Naming are about the loop that names a segment file. Write/Sound states the invariant of a
--   writer and what its stream of bytes is, Write/Steps has rules for its steps, and Write/Creating,
--   Write/Segments, Write/Appending, Write/Building, Write/Writing, Write/Scanning, Write/Opening
--   and Write/Closing carry the invariant through the code. Write/Accepting is about the payloads
--   that write refuses, and Write/Clearing about clear.
-- - Decimal: numbers as the standard library writes them. Timestamp: the timestamps and trailers of
--   tcslog/src/util.rs. Timestamp/Calendar, Timestamp/Months and Timestamp/Civil are about dates,
--   and Timestamp/Text about the text.
-- - Capi: tcslog-c/src/lib.rs, the C interface. Capi/Status has the status codes and Capi/Messages
--   their descriptions, Capi/Strings the calls on text, Capi/Handler the callbacks, Capi/Writing and
--   Capi/Reading the calls on a writer and on a reader. Capi/Statuses, Capi/Rendering, Capi/Headers,
--   Capi/Routing, Capi/Recording and Capi/Delivering are about these.
-- - Gen: tcslog-gen/src/lib.rs, the generator of test logs. Gen/Spec has its record format
--   specifications as text. Gen/Payload, Gen/Creating and Gen/Printing are about payloads,
--   create_log and specifications.
-- - Tests: runs on small logs.
--
-- How state and calls correspond: a record has the fields of the struct, and a function the name of
-- the method; a method with a loop or a long branch has one definition for each. A reader at work
-- (Reader) is the LogRead, the world, the cursor, and the bytes placed in the caller's slice. A
-- writer at work (Writer) is the LogWrite and the world; the callbacks are a parameter, and act on
-- the state that they keep and on the world. A number is a natural number with the width's wrap-
-- around, saturation or limit written out; a text is the list of its bytes in UTF-8.
--
-- The stream of a log, of which the theorems on the writer speak, is what the data sections of its
-- files hold, oldest file first.
--
-- The world is the log's directory, with an outcome for each operation to come, an advance for each
-- reading of the monotonic clock to come, and the clock's tick: a nap moves the reading by the whole
-- ticks in it, so that a nap shorter than a tick may leave it where it was. The tick is no longer
-- than the greatest `u64` of nanoseconds. All are arbitrary otherwise, so that a theorem about all
-- worlds is one about all failures and all timings. An I/O error that the crate does not tell apart
-- keeps a number. The real-time clock, the listing order of the directory and the build's
-- TIMER_RESOLUTION_NS are parameters too.
--
-- Loops: find_loop has fuel for each pending segment file; fill_loop and skip_loop for each byte and
-- each pending segment file; create_loop for each file of the directory, for the 65 collisions that
-- may come while its naps are shorter than a tick of the clock, the first and one for each doubling
-- that takes the resolution up to the greatest `u64`, and for the round that succeeds; write_loop
-- for each byte; take_loop for each entry of the caller's; next_loop and collect_loop for what the
-- reader has ahead by the measure of Read/Spend; fill_up for each byte of the payload. take_loop and
-- fill_up without fuel return what they have; any other loop without fuel is stuck, which is neither
-- a value nor an error.
--
-- Differences from the source: arithmetic without an overflow check wraps, as in a release build;
-- buffers that are overwritten before they are used are left out; `value << 4 | digit` is a sum; the
-- state after a failed step of a file read is that of a file never used again.
--
-- The C interface: a pointer argument is null or what it points to, and an out-parameter is a
-- result. Which bytes are UTF-8, how a formatted text is cut into pieces when it is written, the
-- path of a file, its descriptor and the C functions are parameters. A C function returns. The one
-- panic that the model has, and catches, is that of an index in render_into. In the generator,
-- str::trim is a parameter.
--
-- Not modelled: that the segment files a writer leaves are those of a stream as Read/Stream
-- describes them, with what each record owes in each header, is not derived from the writer's
-- invariant; what the generator prints and how it reads its command line, the Python binding, the
-- fuzz targets, the build script, and the tools.
pub mod Prelude
pub mod Bytes
pub mod Error
pub mod Exec
pub mod Fs
pub mod SeqId
pub mod SegId
pub mod Format
pub mod Header
pub mod Names
pub mod Read
pub mod Clock
pub mod Write
pub mod Decimal
pub mod Timestamp
pub mod Capi
pub mod Gen
pub mod Tests
