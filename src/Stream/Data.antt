-- ===== src/Stream/Data.antt =====
-- The data of a stream: DATA frames append to its buffer and `ReadData` takes bytes off it.
use libhttp.Prelude.{
  inl, inr, ℕ, ◌+◌, ◌%◌, ◌^◌, ◌<◌, ◌≤◌, ◌≡◌, refl, sym, ap, ◌∙◌, List, [], ◌∷◌, ◌++◌, some, length,
  take, drop, length-take, length-append, append-nil, append_assoc, arith,
}
use mathlib.Core.Path.{subst}
use libhttp.SliceBuffer.{move_header}
use libhttp.SliceBuffer.Bytes.{concat, bytes, IsValid}
use libhttp.SliceBuffer.Moves.{Holds, add_slice-Holds, move_header-Holds}
use libhttp.SliceBuffer.Reads.{copy_to_buffer-take}
use libhttp.Stream.{Http2Stream, append_data, read_data}

-- The DATA frames of a stream in the order they arrive.
abbrev pub append_all : List (List ℕ) → Http2Stream → Http2Stream
append_all [] s = s
append_all (data_bytes ∷ rest) s = append_all rest (append_data s data_bytes)

append_all-Holds :
    (arrived : List (List ℕ)) (s : Http2Stream)
    → IsValid s.data_cache
    → length (bytes s.data_cache) + length (concat arrived) < 2 ^ 64
    → Holds (append_all arrived s).data_cache (bytes s.data_cache ++ concat arrived)
unfolding append_data
append_all-Holds [] s v h = record { valid = v; content = sym (append-nil (bytes s.data_cache)) }
append_all-Holds (data_bytes ∷ rest) s v h =
    let size = length-append data_bytes (concat rest) in
    let added = add_slice-Holds s.data_cache data_bytes v (omega arith) in
    let more = ap length added.content ∙ length-append (bytes s.data_cache) data_bytes in
    let done = append_all-Holds rest (append_data s data_bytes) added.valid (omega arith) in
    record {
      valid = done.valid;
      content =
          done.content
          ∙ ap (λ bs. bs ++ concat rest) added.content
          ∙ append_assoc (bytes s.data_cache) data_bytes (concat rest);
    }

-- A read of `size` bytes of what a buffer of bytes `bs` holds.
pub record Gives (s : Http2Stream) (size : ℕ) (bs : List ℕ) : Type 0 where
  pub rest : Http2Stream
  pub read : read_data s size ≡ some (take size bs, rest)
  pub left : Holds rest.data_cache (drop size bs)

-- A read of no more bytes than are buffered gives the oldest bytes and leaves the others.
read_data-Gives :
    (s : Http2Stream) (size : ℕ)
    → IsValid s.data_cache
    → size ≤ length (bytes s.data_cache)
    → size < 2 ^ 32
    → Gives s size (bytes s.data_cache)
unfolding read_data
read_data-Gives s size v h narrow =
    let len = length-take size (bytes s.data_cache) in
    let all_of : length (take size (bytes s.data_cache)) % 2 ^ 32 ≡ size = omega arith in
    elim (copy_to_buffer-take s.data_cache size v) [
      | inl (enough, copied) ↦ elim (move_header-Holds s.data_cache size v) [
        | inl (within, moved, left) ↦ record {
          rest = record s { data_cache = (move_header s.data_cache size).1 };
          read = rw (read_data, copied, all_of) refl;
          left = left;
        }
        | inr (beyond, refused) ↦ absurd (omega arith)
      ]
      | inr (short, failed) ↦ absurd (omega arith)
    ]

-- `ReadData` gives back the bytes of the DATA frames in the order of their arrival, however they
-- were cut into frames, and leaves the bytes behind them, when no more is asked for than has
-- arrived and all of it fits `size_t`.
pub read_data-append_all :
    (arrived : List (List ℕ)) (s : Http2Stream) (size : ℕ)
    → Holds s.data_cache []
    → length (concat arrived) < 2 ^ 64
    → size ≤ length (concat arrived)
    → size < 2 ^ 32
    → Gives (append_all arrived s) size (concat arrived)
read_data-append_all arrived s size empty fits h narrow =
    let none_before : length (bytes s.data_cache) ≡ 0 = ap length empty.content in
    let held = append_all-Holds arrived s empty.valid (omega arith) in
    let all : bytes (append_all arrived s).data_cache ≡ concat arrived =
      held.content ∙ ap (λ bs. bs ++ concat arrived) empty.content in
    let same = ap length all in
    subst (Gives (append_all arrived s) size) all
      (read_data-Gives (append_all arrived s) size held.valid (omega arith) narrow)
