-- ===== src/Connection/Fresh.antt =====
-- `create_stream` of src/http2/connection.cc gives out new ids.
use libhttp.Prelude.{
  ◌≤◌, ◌⊎◌, ◌+◌, ◌%◌, ◌<◌, ◌≡◌, true, false, Option, some, none, length, if◌then◌else◌,
}
use libhttp.Stream.{Http2Stream}
use libhttp.Connection.{Connection, find_stream, remote_setting, max_stream_id}

-- What a call of `create_stream` on `c` comes to.
pub data IsCreation (c : Connection) : Option Http2Stream × Connection → Type 0 where
  refusal :
      (max_stream_id ≤ c.next_local_stream_id)
        ⊎ ((c.received_goaway ≡ true)
            ⊎ ((c.sent_goaway ≡ true)
                ⊎ ((0 < remote_setting c 3) × (remote_setting c 3 ≤ length c.streams))))
      → IsCreation c (none, c)
  creation :
      (s : Http2Stream) (d : Connection)
      → s.stream_id % 2 ≡ (if c.client_side then 1 else 0)
      → s.stream_id < max_stream_id
      → find_stream c.streams s.stream_id ≡ none
      → find_stream d.streams s.stream_id ≡ some s
      → d.next_local_stream_id ≡ s.stream_id + 2
      → c.received_goaway ≡ false
      → c.sent_goaway ≡ false
      → (remote_setting c 3 ≡ 0) ⊎ (length c.streams < remote_setting c 3)
      → IsCreation c (some s, d)
