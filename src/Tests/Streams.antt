-- ===== src/Tests/Streams.antt =====
-- Streams of src/http2/stream.cc at concrete inputs.
use libhttp.Prelude.{◌+◌, ◌≤◌, ◌≡◌, refl, List, [], ◌∷◌, some, none, arith}
use libhttp.Stream.{
  http2_stream, closed, append_data, read_data, peek_data, get_headers, recv_headers, send_headers,
  send_end_stream, recv_end_stream, mark_unwritable, mark_unreadable, get_next_status, data_size,
  append_headers, ensure_headers_decoded,
}
use libhttp.Stream.Machine.{halves, peer_state, stage}
use libhttp.Stream.Run.{
  StreamAction, sends_headers, receives_headers, sends_end_stream, receives_end_stream,
  receives_rst_stream, perform, event_of, step?, run, changes, perform-halves, run-stage,
  run-closed,
}
use libhttp.Stream.Conversation.{
  headers, end_of_stream, Conversation, begin, left, Conversation-mirrored,
}
use libhttp.Stream.Data.{append_all, Gives, read_data-append_all}
use libhttp.SliceBuffer.{slice_buffer_init, copy_to_buffer, get_buffer_length, add_slice, front}
use libhttp.SliceBuffer.Moves.{Holds, slice_buffer_init-Holds}

perform-halves_example :
    halves (perform sends_headers (http2_stream 1 3)).state
    ≡ step? (event_of sends_headers) (halves (http2_stream 1 3).state)
perform-halves_example = perform-halves sends_headers (http2_stream 1 3)

-- A request with its response.
abbrev exchange : List StreamAction
exchange = sends_headers ∷ sends_end_stream ∷ receives_headers [] ∷ receives_end_stream ∷ []

run-stage_example :
    (changes exchange (http2_stream 1 3) ≤ 3)
    × (changes exchange (http2_stream 1 3) + stage (http2_stream 1 3).state
        ≤ stage (run exchange (http2_stream 1 3)).state)
run-stage_example = run-stage exchange (http2_stream 1 3)

exchange_closes : (run exchange (http2_stream 1 3)).state ≡ closed
unfolding perform http2_stream send_headers send_end_stream recv_headers recv_end_stream
    mark_unwritable mark_unreadable get_next_status
exchange_closes = refl

run-closed_example :
    (run (sends_headers ∷ receives_rst_stream 8 ∷ []) (run exchange (http2_stream 1 3))).state
    ≡ closed
run-closed_example =
    run-closed (sends_headers ∷ receives_rst_stream 8 ∷ []) (run exchange (http2_stream 1 3))
      exchange_closes

abbrev asked :
    Conversation
      (perform sends_end_stream (perform sends_headers (http2_stream 1 3)))
      (perform receives_end_stream (perform (receives_headers []) (http2_stream 2 3)))
asked =
    left sends_end_stream receives_end_stream end_of_stream
      (left sends_headers (receives_headers []) (headers []) (begin 1 2 3))

Conversation-mirrored_example :
    (perform receives_end_stream (perform (receives_headers []) (http2_stream 2 3))).state
    ≡ peer_state (perform sends_end_stream (perform sends_headers (http2_stream 1 3))).state
Conversation-mirrored_example = Conversation-mirrored asked

new_stream-Holds : Holds (http2_stream 1 3).data_cache []
unfolding http2_stream
new_stream-Holds = slice_buffer_init-Holds

read_data-append_all_example :
    Gives
      (append_all ((1 ∷ 2 ∷ []) ∷ (3 ∷ 4 ∷ 5 ∷ []) ∷ []) (http2_stream 1 3))
      4
      (1 ∷ 2 ∷ 3 ∷ 4 ∷ 5 ∷ [])
read_data-append_all_example =
    read_data-append_all ((1 ∷ 2 ∷ []) ∷ (3 ∷ 4 ∷ 5 ∷ []) ∷ []) (http2_stream 1 3) 4
      new_stream-Holds (omega arith) (omega arith) (omega arith)

new_stream_has_none : read_data (http2_stream 1 3) 1 ≡ none
unfolding read_data http2_stream slice_buffer_init copy_to_buffer get_buffer_length
new_stream_has_none = refl

peek_first : peek_data (append_data (http2_stream 1 3) (7 ∷ 8 ∷ [])) ≡ some (7 ∷ 8 ∷ [])
unfolding peek_data append_data http2_stream slice_buffer_init add_slice front
peek_first = refl

size_of_two : data_size (append_data (http2_stream 1 3) (7 ∷ 8 ∷ [])) ≡ 2
unfolding data_size append_data http2_stream slice_buffer_init add_slice get_buffer_length
size_of_two = refl

trailers_follow :
    (get_headers (
      append_headers
        (recv_headers (http2_stream 1 3) (record { key = 1 ∷ []; value = [] } ∷ []))
        (record { key = 2 ∷ []; value = 3 ∷ [] } ∷ []))).0
    ≡ (1 ∷ [], []) ∷ (2 ∷ [], 3 ∷ []) ∷ []
unfolding get_headers append_headers recv_headers http2_stream get_next_status
    ensure_headers_decoded
trailers_follow = refl
