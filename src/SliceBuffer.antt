-- ===== src/SliceBuffer.antt =====
-- src/utils/slice_buffer.cc: a queue of slices that is read as one string of bytes. The slices
-- before `start` have been consumed and wait for `compact`. `size_t` has 64 bits.
pub mod Bytes
pub mod Moves
pub mod Reads
use libhttp.Prelude.{
  ℕ, zero, suc, ◌+◌, ◌-◌, ◌/◌, ◌%◌, ◌^◌, min, Bool, true, false, ◌&&◌, ◌||◌, List, [], ◌∷◌, ◌++◌,
  Option, some, none, length, get_elem?, set, take, drop, if◌then◌else◌, ◌==◌, ltb, leb,
}
use libhttp.Slice.{pop_front, fill}

pub record SliceBuffer : Type 0 where
  pub vs : List (List ℕ)
  pub start : ℕ
  pub buffer_length : ℕ

abbrev pub size_add : ℕ → ℕ → ℕ
size_add a b = (a + b) % 2 ^ 64

abbrev pub size_sub : ℕ → ℕ → ℕ
size_sub a b = (a + 2 ^ 64 - b) % 2 ^ 64

unfoldable pub slice_buffer_init : SliceBuffer
slice_buffer_init = record { vs = []; start = 0; buffer_length = 0 }

unfoldable pub slice_count : SliceBuffer → ℕ
slice_count b = length b.vs - b.start

unfoldable pub get_buffer_length : SliceBuffer → ℕ
get_buffer_length b = b.buffer_length

unfoldable pub add_slice : SliceBuffer → List ℕ → SliceBuffer
add_slice b [] = b
add_slice b (x ∷ xs) = record b {
  vs = b.vs ++ ((x ∷ xs) ∷ []);
  buffer_length = size_add b.buffer_length (length (x ∷ xs));
}

unfoldable pub compact : SliceBuffer → SliceBuffer
compact b =
    if ltb 0 b.start && (leb (length b.vs) b.start || ltb (length b.vs / 2) b.start)
    then record b { vs = drop b.start b.vs; start = 0 }
    else b

-- The round that ends inside a slice is the last one. Each other round consumes a slice, so their
-- number is enough fuel.
unfoldable pub move_loop : ℕ → SliceBuffer → ℕ → SliceBuffer
move_loop zero b remaining = b
move_loop (suc fuel) b zero = b
move_loop (suc fuel) b (suc r) = elim (get_elem? b.vs b.start) [
  | none ↦ b
  | some front ↦ elim (ltb (suc r) (length front)) [
    | true ↦ record b {
      vs = set b.vs b.start (pop_front front (suc r));
      buffer_length = size_sub b.buffer_length (suc r);
    }
    | false ↦
        move_loop fuel
          (record b {
            start = suc b.start;
            buffer_length = size_sub b.buffer_length (length front);
          })
          (suc r - length front)
  ]
]

unfoldable pub move_header : SliceBuffer → ℕ → Bool × SliceBuffer
move_header b len =
    if ltb (get_buffer_length b) len
    then (false, b)
    else (if len == 0 then (true, b) else (true, compact (move_loop (length b.vs) b len)))

unfoldable pub copy_loop : List (List ℕ) → ℕ → List ℕ
copy_loop [] left = []
copy_loop (s ∷ rest) left =
    let copied = copy_loop rest (left - min left (length s)) in
    if left == 0 then [] else take (min left (length s)) s ++ copied

-- The bytes that are copied, whose number is the result. `none`: the assertion fails.
unfoldable pub copy_to_buffer : SliceBuffer → ℕ → Option (List ℕ)
unfolding copy_loop
copy_to_buffer b len =
    if leb len (get_buffer_length b) then some (copy_loop (drop b.start b.vs) len) else none

unfoldable pub get_header : SliceBuffer → ℕ → Option (List ℕ)
get_header b len =
    if len == 0 || ltb (get_buffer_length b) len then some [] else copy_to_buffer b len

unfoldable pub merge_loop : List (List ℕ) → List ℕ
merge_loop [] = []
merge_loop (s ∷ rest) = s ++ merge_loop rest

-- `none`: the slices do not fill the buffer of the length counted.
unfoldable pub merge : SliceBuffer → Option (List ℕ)
unfolding merge_loop
merge b =
    if slice_count b == 0
    then some []
    else (if slice_count b == 1
        then get_elem? b.vs b.start
        else fill (get_buffer_length b) (merge_loop (drop b.start b.vs)))

unfoldable pub empty : SliceBuffer → Bool
empty b = leb (length b.vs) b.start

unfoldable pub front : SliceBuffer → Option (List ℕ)
front b = get_elem? b.vs b.start

unfoldable pub pop_first : SliceBuffer → SliceBuffer
pop_first b = elim (get_elem? b.vs b.start) [
  | none ↦ b
  | some s ↦
      compact
        (record b { start = suc b.start; buffer_length = size_sub b.buffer_length (length s) })
]

unfoldable pub clear_buffer : SliceBuffer → SliceBuffer
clear_buffer b = record b { vs = []; start = 0; buffer_length = 0 }
