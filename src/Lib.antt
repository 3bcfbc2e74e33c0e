-- ===== src/Lib.antt =====
-- A verification of libhttp2, the HTTP/2 library in C++ of this repository.
--
-- The program takes the bytes of one TCP connection apart into frames (src/http2/frame.cc,
-- src/http2/parser.cc), hands the header blocks to a header compressor (src/hpack), and keeps a
-- state machine and a data buffer for each stream (src/http2/stream.cc, src/utils/slice_buffer.cc);
-- what it sends, it builds as frame records (src/http2/frame.cc) and writes out
-- (src/http2/pack.cc). Bytes are kept in reference-counted slices (src/utils/slice.cc). The connection
-- (src/http2/connection.cc) owns the streams, the settings and both ends of the compression; the
-- transport (src/http2.cc) cuts what the network brings into frames and hands them to it.
--
-- The files and what they model:
--   Prelude          lists, tests and bits on native numbers; `Result`, the outcome of code that
--                    reads memory: a value, an error code, or a read outside the buffer
--   Types            the enumerations of include/http2/transport.h; Types/Flags has the flag tests
--   Wire             src/utils/byte_order.{h,cc}, on a little-endian host
--   Slice            src/utils/slice.cc: a slice is the list of its bytes
--   SliceBuffer      src/utils/slice_buffer.cc: the vector of slices, its start index and the length
--                    counted; Bytes is the string of bytes that it stands for, Moves and Reads have
--                    what the operations do to that string
--   Frame            src/http2/frame.{h,cc}: the frame records, the nine bytes of the frame header,
--                    and in Frame/Build the builders
--   Parser           src/http2/parser.cc: the ten `parse_http2_frame_*`; a pointer into the payload
--                    is an offset into the list that ends where the buffer does
--   Pack             src/http2/pack.cc: the ten `pack_http2_frame_*`; `none` is a write that does not
--                    fill the slice that was allocated
--   Codec            frames from one end to the other: a packer, then the header and the parser of
--                    the same type on whatever follows in the buffer; Prefix has the parsers on a
--                    buffer that goes on
--   Hpack            src/hpack: Integer has the prefixed integers of decode.cc and encode.cc, Dynamic
--                    the table of dynamic_metadata.cc with its eviction and its lookups, Static the
--                    table of static_metadata.cc, Encode the representations of encode.cc, Decode the
--                    strings of decode.cc and `decode_headers` of hpack.cc, over any Huffman decoder,
--                    Compressor the sending side of send_record.cc: Sync says what ties it to the
--                    table at the other end, Evict, Ring, Add and Search keep that, Step sends one
--                    field, and Correct whole blocks
--   Settings         src/http2/settings.cc, and `received_settings` of src/http2/connection.cc, whose
--                    calls are listed as effects
--   Stream           src/http2/stream.cc: the state machine (Machine tells it by the two halves of a
--                    stream), runs of operations, two ends of one stream, and the received data
--   Connection       src/http2/connection.{h,cc}: the state and the stream map, Output what goes to the
--                    service or into the buffer, Send the sending operations, Receive the handlers,
--                    Process `package_process`; Orderly has the invariant of the streams, Quiet,
--                    Handled, Processed, Dispatched and Sent that the operations keep it, Fresh the
--                    ids that are given out, Refusal what `package_process` refuses, and GOAWAY, Framed
--                    `package_process` on a buffer that goes on
--   Transport        src/http2.cc: `ReceivedData` with its loop (Loop and Pieces), and in Runs the
--                    calls of the application in any order
--   Tests            the theorems at concrete inputs, and runs of the model
--
-- Functions keep the source's names in snake case. An object that a method changes is an argument
-- and a result. `uint8_t`, `uint32_t` and `size_t` are natural numbers with the wrap-around
-- written out (`size_t` has 64 bits). Loops over a list recurse on it; the others recurse on fuel:
-- the loop of DATA chunks is given one round for each byte of the body, the eviction one for each
-- entry, the loop of `move_header` one for each slice, `decode_headers` one for each byte of the
-- block, the loop of `ReceivedData` one for each byte and one more, the eviction of the compressor
-- one for each entry it counts (none left is an assertion that fails), and the integer encoder the
-- integer itself; no theorem about them assumes that the fuel is enough. A body of DATA of 2^32 bytes or
-- more may make the source's loop go on for ever; the theorem about it is for smaller ones.
--
-- A result `none` of an operation of the compressor or the connection is an assertion that fails, a
-- buffer that is not filled, a read behind what the buffer of the network holds, or, in a Huffman string
-- whose length is wrong, a read behind its header block, where the source goes on with the bytes that
-- stand there; `broken` and `breaks` of the transport are the same. The application's callbacks are a log of events, in the order of the
-- calls; they are taken not to call the connection again, and the stream that the application names
-- to be the one that the map has under its id. `SendRawData` is a parameter that sees how many calls
-- came before; the connection keeps the bytes of each call.
--
-- Not modelled: the Huffman code and its generated tables, taken from another library; the hash
-- function, a parameter; the count of users of the static tables, behind a lock; running out of
-- memory; the check of the thread; reference counts, atomics and the lock-free queue; logging.
pub mod Prelude
pub mod Types
pub mod Slice
pub mod SliceBuffer
pub mod Wire
pub mod Frame
pub mod Parser
pub mod Pack
pub mod Codec
pub mod Connection
pub mod Hpack
pub mod Settings
pub mod Stream
pub mod Transport
pub mod Tests
