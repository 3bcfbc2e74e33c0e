-- ===== src/Tests/Connections.antt =====
-- The compressor of src/hpack/send_record.cc, and the connection and the transport of src/http2, at
-- concrete inputs.
use libhttp.Prelude.{
  ℕ, ◌+◌, ◌≡◌, refl, true, false, List, [], ◌∷◌, ◌++◌, Option, some, none, length, replicate, arith,
}
use libhttp.Hpack.{MdelemData}
use libhttp.Hpack.Dynamic.{dynamic_table_init}
use libhttp.Slice.{slice_eq}
use libhttp.Hpack.Decode.{Huffman, no_upper, is_upper}
use libhttp.Hpack.Compressor.{
  Hash, Compressor, compressor_encode_headers, compressor_init, get_size_in_hpack_table,
  grpc_key_is_binary_header,
}
use libhttp.Hpack.Compressor.Step.{IsSendable}
use libhttp.Hpack.Compressor.Correct.{
  IsBlock, compressor_init-InSync, compressor_encode_headers-IsBlock,
}
use libhttp.Transport.{receive_loop, receive_frame, receive_sized}
use libhttp.Connection.Process.{
  package_frame, process_frame, frame_process, forward, retire, track, breaks_block,
}
use libhttp.Frame.{http2_frame_header_pack, http2_frame_header_init}
use libhttp.Parser.{parse_http2_frame_ping}
use libhttp.Connection.Receive.{received_ping}
use libhttp.Connection.Output.{ensure_preface_sent, emit, send_http2_frame, send_raw_data}
use libhttp.Pack.{pack_http2_frame_ping, pack_frame}
use libhttp.Slice.{fill}
use libhttp.Frame.Build.{build_http2_frame_ping}
use libhttp.Transport.{broken}
use libhttp.Types.{has_flag}
use libhttp.Wire.{put_uint32_in_be_stream}
use libhttp.Prelude.{Bool, ◌≢◌}
use libhttp.SliceBuffer.{SliceBuffer, slice_buffer_init}
use libhttp.SliceBuffer.Moves.{slice_buffer_init-Holds}
use libhttp.Connection.{Connection, Env, http2_connection, create_stream}
use libhttp.Connection.Orderly.{core, IsOrderly}
use libhttp.Wire.{get_uint32_from_be_stream}
use libhttp.Frame.{FrameHdr, http2_frame_header_unpack}
use libhttp.Connection.Send.{send_goaway}
use libhttp.Connection.Process.{package_process}
use libhttp.Connection.Refusal.{IsRefused, send_goaway-IsRefused}
use libhttp.Transport.{Reception, receive_frames}
use libhttp.Transport.Loop.{Settles, receive_frames-Settles}
use libhttp.Transport.Pieces.{resume, receive_frames-resume}
use libhttp.Transport.Runs.{Reaches, here, then_call, create, call-IsOrderly}

-- A Huffman code that refuses, a hash that adds up, and a service that takes everything.
abbrev no_huffman : Huffman
no_huffman n bytes = none

abbrev sum : Hash
sum [] = 0
sum (b ∷ bs) = b + sum bs

abbrev env : Env
env = record { send_raw_data = λ n s. some (length s); huffman = no_huffman; hash = sum }

-- `server: a`, twice.
abbrev server : MdelemData
server = record { key = 115 ∷ 101 ∷ 114 ∷ 118 ∷ 101 ∷ 114 ∷ []; value = 97 ∷ [] }

server-IsSendable : IsSendable true server
unfolding get_size_in_hpack_table no_upper grpc_key_is_binary_header is_upper slice_eq
server-IsSendable = record { lower = refl; small = omega arith }

compressor_encode_headers-IsBlock_example :
    IsBlock no_huffman sum true compressor_init
      (dynamic_table_init 4096)
      (server ∷ server ∷ [])
      slice_buffer_init
unfolding compressor_init slice_buffer_init
compressor_encode_headers-IsBlock_example =
    compressor_encode_headers-IsBlock no_huffman sum true compressor_init (dynamic_table_init 4096)
      (server ∷ server ∷ []) slice_buffer_init (compressor_init-InSync true)
      slice_buffer_init-Holds.valid (server-IsSendable, (server-IsSendable, tt)) (omega arith)
      (omega arith) (omega arith)

-- A PING of eight zero bytes, and the first half of another.
abbrev pings : List ℕ
pings = (0 ∷ 0 ∷ 8 ∷ 6 ∷ 0 ∷ replicate 12 0) ++ (0 ∷ 0 ∷ 8 ∷ 6 ∷ [])

receive_frames-Settles_example :
    Settles env pings (receive_frames env (http2_connection 1 true) pings)
receive_frames-Settles_example = receive_frames-Settles env (http2_connection 1 true) pings

abbrev is_broken : Reception → Bool
is_broken broken = true
is_broken _ = false

not_broken : (r : Reception) → is_broken r ≡ false → r ≢ broken
not_broken r h e = cc

pings_whole : receive_frames env (http2_connection 1 false) pings ≢ broken
unfolding receive_loop receive_frame receive_sized package_process package_frame process_frame
    frame_process forward retire track breaks_block http2_frame_header_unpack
    get_uint32_from_be_stream parse_http2_frame_ping received_ping http2_connection
    ensure_preface_sent emit send_http2_frame send_raw_data pack_http2_frame_ping pack_frame fill
    build_http2_frame_ping http2_frame_header_pack http2_frame_header_init has_flag
    put_uint32_in_be_stream
pings_whole = not_broken (receive_frames env (http2_connection 1 false) pings) refl

receive_frames-resume_example :
    receive_frames env (http2_connection 1 false) (pings ++ (0 ∷ replicate 12 0))
    ≡ resume env pings (0 ∷ replicate 12 0) (receive_frames env (http2_connection 1 false) pings)
receive_frames-resume_example =
    receive_frames-resume env (http2_connection 1 false) pings (0 ∷ replicate 12 0) pings_whole

abbrev created : Connection
created = (create_stream (http2_connection 1 true)).1

created-reached : Reaches env (http2_connection 1 true) created
created-reached = then_call create here refl

call-IsOrderly_example : IsOrderly (core created)
call-IsOrderly_example = call-IsOrderly env 1 true created created-reached

-- The second `server: a` goes out as the index of the first.
abbrev both : Option (SliceBuffer × Compressor)
both = compressor_encode_headers sum compressor_init (server ∷ server ∷ []) slice_buffer_init true

abbrev pinged : Reception
pinged = receive_frames env (http2_connection 1 true) pings

send_goaway-IsRefused_example :
    (d : Connection) × (send_goaway env created 0 0 (7 ∷ []) ≡ some d)
    × IsRefused env created d 0 0 (7 ∷ [])
unfolding http2_connection create_stream
send_goaway-IsRefused_example =
    send_goaway-IsRefused env created 0 0 (7 ∷ []) (omega arith) (omega arith) (omega arith)
      (omega arith)

-- HEADERS of a block that goes on have been received for stream 1, and a PING comes.
abbrev in_block : Connection
in_block = record (http2_connection 1 false) { next_frame_limit = true; next_stream_id_limit = 1 }

abbrev ping : List ℕ
ping = 0 ∷ 0 ∷ 8 ∷ 6 ∷ 0 ∷ replicate 12 0

abbrev ping_hdr : FrameHdr
ping_hdr = record { length = 8; type = 6; flags = 0; reserved = 0; stream_id = 0 }
