-- ===== src/Codec/Fields.antt =====
-- The 31-bit and 32-bit fields of the payloads, as the parsers read them.
use libhttp.Prelude.{
  ℕ, ◌+◌, ◌-◌, ◌*◌, ◌/◌, ◌%◌, ◌^◌, ◌<◌, ◌≤◌, ◌≡◌, ◌∙◌, List, ◌∷◌, ◌++◌, ok, read, view, length,
  drop, arith, bit_and, ◌==◌, Bool-cases, inl, inr,
}
use libhttp.Prelude.Bits.{and-mask, and-bit, or-add_right}
use libhttp.Wire.{put_uint32_in_be_stream}
use libhttp.Wire.RoundTrip.{put_uint32_bytes, get_uint32-put_uint32}
use libhttp.Frame.{PrioritySpec, stream_id_mask}
use libhttp.Parser.{top_bit, parse_priority_spec}
use libhttp.Pack.{dependency}

pub length-put_uint32 : (n : ℕ) → length (put_uint32_in_be_stream n) ≡ 4
length-put_uint32 n = rw (put_uint32_bytes n)

pub drop-put_uint32 : (n : ℕ) (rest : List ℕ) → drop 4 (put_uint32_in_be_stream n ++ rest) ≡ rest
drop-put_uint32 n rest = rw (put_uint32_bytes n)

pub read-put_uint32 :
    (n : ℕ) (rest : List ℕ) → read (put_uint32_in_be_stream n ++ rest) 0 ≡ ok (n / 2 ^ 24 % 256)
read-put_uint32 n rest = rw (put_uint32_bytes n)

-- `view` of the bytes behind a field of four.
pub view-put_uint32 :
    (n k i m : ℕ) (rest : List ℕ)
    → k ≡ 4 + i
    → view (put_uint32_in_be_stream n ++ rest) k m ≡ view rest i m
view-put_uint32 n k i m rest e = rw (put_uint32_bytes n, e) (ground arith)

pub masked : (n : ℕ) → n < 2 ^ 31 → bit_and n stream_id_mask ≡ n
masked n h = and-mask 31 n ∙ omega arith

top_bit_value : (b : ℕ) → bit_and b 0x80 ≡ b / 128 % 2 * 128
top_bit_value b = and-bit 7 b

pub top_bit_clear : (n : ℕ) → n < 2 ^ 31 → top_bit (n / 2 ^ 24 % 256) ≡ 0
top_bit_clear n h = ground (arith, top_bit_value (n / 2 ^ 24 % 256))

pub top_bit_set : (n : ℕ) → n < 2 ^ 31 → top_bit ((n + 2 ^ 31) / 2 ^ 24 % 256) ≡ 1
top_bit_set n h = ground (arith, top_bit_value ((n + 2 ^ 31) / 2 ^ 24 % 256))

-- A priority specification that fits its five bytes.
pub record IsSpec (s : PrioritySpec) : Type 0 where
  pub depend_fits : s.depend_stream_id < 2 ^ 31
  pub weight_lower : 1 ≤ s.weight
  pub weight_upper : s.weight ≤ 256
  pub exclusive_fits : s.exclusive ≤ 1

dependency_value :
    (s : PrioritySpec) → IsSpec s → dependency s ≡ s.depend_stream_id + s.exclusive * 2 ^ 31
unfolding dependency
dependency_value s h = elim (Bool-cases (s.exclusive == 0)) [
  | inl e ↦ ground arith
  | inr e ↦ ground (arith, or-add_right 31 1 s.depend_stream_id)
]

-- What the packers write for a specification, `parse_priority_spec` reads back.
pub parse_priority_spec-dependency :
    (s : PrioritySpec) (w : ℕ) (rest : List ℕ)
    → IsSpec s
    → w ≡ s.weight - 1
    → parse_priority_spec (put_uint32_in_be_stream (dependency s) ++ (w ∷ rest)) ≡ ok s
unfolding parse_priority_spec
parse_priority_spec-dependency s w rest h e =
    let d = s.depend_stream_id + s.exclusive * 2 ^ 31 in
    rw (dependency_value s h) (
      ground (
        arith,
        get_uint32-put_uint32 d (w ∷ rest),
        read-put_uint32 d (w ∷ rest),
        read_behind d,
        and-mask 31 d,
        top_bit_clear s.depend_stream_id,
        top_bit_set s.depend_stream_id,
      ))
  where
    read_behind : (n : ℕ) → read (put_uint32_in_be_stream n ++ (w ∷ rest)) 4 ≡ ok w
    read_behind n = rw (put_uint32_bytes n)
