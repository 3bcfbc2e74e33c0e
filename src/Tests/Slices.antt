-- ===== src/Tests/Slices.antt =====
-- The slice buffer of src/utils/slice_buffer.cc at concrete inputs.
use libhttp.Prelude.{◌<◌, ◌≤◌, ◌≡◌, refl, true, false, [], ◌∷◌, some, none, length, ◌⊎◌, ◌↔◌, arith}
use libhttp.SliceBuffer.{
  SliceBuffer, add_slice, copy_to_buffer, move_header, empty, front, pop_first, merge, get_header,
  get_buffer_length, copy_loop,
}
use libhttp.SliceBuffer.Bytes.{bytes, IsValid}
use libhttp.SliceBuffer.Moves.{Holds, add_slice-Holds, move_header-Holds, pop_first-Holds}
use libhttp.SliceBuffer.Reads.{copy_to_buffer-take, empty_iff, merge-bytes}

-- One slice consumed, two left.
abbrev three_slices : SliceBuffer
three_slices = record {
  vs = (9 ∷ []) ∷ (1 ∷ 2 ∷ []) ∷ (3 ∷ 4 ∷ 5 ∷ []) ∷ [];
  start = 1;
  buffer_length = 5;
}

three_slices-IsValid : IsValid three_slices
three_slices-IsValid = record {
  within = omega arith;
  counted = refl;
  narrow = omega arith;
  filled = (omega arith, (omega arith, tt));
}

add_slice-Holds_test : Holds (add_slice three_slices (6 ∷ [])) (1 ∷ 2 ∷ 3 ∷ 4 ∷ 5 ∷ 6 ∷ [])
add_slice-Holds_test = add_slice-Holds three_slices (6 ∷ []) three_slices-IsValid (omega arith)

move_header-Holds_example :
    ((3 ≤ length (bytes three_slices))
      × ((move_header three_slices 3).0 ≡ true)
      × Holds (move_header three_slices 3).1 (4 ∷ 5 ∷ []))
    ⊎ ((length (bytes three_slices) < 3) × (move_header three_slices 3 ≡ (false, three_slices)))
move_header-Holds_example = move_header-Holds three_slices 3 three_slices-IsValid

copy_to_buffer-take_example :
    ((4 ≤ length (bytes three_slices))
      × (copy_to_buffer three_slices 4 ≡ some (1 ∷ 2 ∷ 3 ∷ 4 ∷ [])))
    ⊎ ((length (bytes three_slices) < 4) × (copy_to_buffer three_slices 4 ≡ none))
copy_to_buffer-take_example = copy_to_buffer-take three_slices 4 three_slices-IsValid

empty_iff_example : (empty three_slices ≡ true) ↔ (bytes three_slices ≡ [])
empty_iff_example = empty_iff three_slices three_slices-IsValid

front_three : front three_slices ≡ some (1 ∷ 2 ∷ [])
unfolding front
front_three = refl

pop_first-Holds_test : Holds (pop_first three_slices) (3 ∷ 4 ∷ 5 ∷ [])
pop_first-Holds_test = pop_first-Holds three_slices (1 ∷ 2 ∷ []) three_slices-IsValid front_three

merge-bytes_test : merge three_slices ≡ some (1 ∷ 2 ∷ 3 ∷ 4 ∷ 5 ∷ [])
merge-bytes_test = merge-bytes three_slices three_slices-IsValid

get_header_three : get_header three_slices 3 ≡ some (1 ∷ 2 ∷ 3 ∷ [])
unfolding get_header get_buffer_length copy_to_buffer copy_loop
get_header_three = refl
