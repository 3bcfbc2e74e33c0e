-- ===== src/Hpack/Compressor/Step.antt =====
-- One field through the compressor of src/hpack/send_record.cc and a round of the decoder.
use libhttp.Prelude.{
  ℕ, ◌+◌, ◌^◌, ◌<◌, ◌≤◌, ◌≡◌, inl, inr, refl, Bool, true, List, ◌∷◌, Option, length, Bool-cases,
  leb, ◌==◌, arith,
}
use libhttp.Hpack.{MdelemData, mdelem_size}
use libhttp.Hpack.Dynamic.{DynamicTable, push_mdelem_data}
use libhttp.Hpack.Static.{full_match_static_mdelem_index, check_key_exists}
use libhttp.Hpack.Decode.{Huffman, no_upper}
use libhttp.Hpack.Decode.Indexed.{
  IsSent, encode_index-IsSent, encode_without_indexing_key-IsSent,
  encode_with_incremental_indexing-IsSent, encode_without_indexing-IsSent,
}
use libhttp.Hpack.Compressor.{
  Compressor, Hash, Match, not_match, full_match, key_match, with_slice, get_matching_index,
  encode_new, encode_found, hpack_encode_header, encode_header, get_size_in_hpack_table, add_elem,
  dynidx,
}
use libhttp.Hpack.Compressor.Sync.{InSync, weight, cost-get_size_in_hpack_table}
use libhttp.Hpack.Compressor.Add.{add_elem-IsAdded, IsAdded}
use libhttp.Hpack.Compressor.Search.{
  IsMatch, get_matching_index-IsMatch, full_match_static-entry_at,
}

-- A field with a name in lower case, of a size that the compressor can count.
pub record IsSendable (flag : Bool) (mdel : MdelemData) : Type 0 where
  pub lower : no_upper mdel.key ≡ true
  pub small : get_size_in_hpack_table mdel flag < 65536

module _ (huffman : Huffman) (hash : Hash) (flag : Bool) where
  -- A field was encoded, and a round of the decoder keeps in step.
  pub record IsStep (c : Compressor) (t : DynamicTable) (mdel : MdelemData)
      (r : Option (List ℕ × Compressor)) : Type 0 where
    pub after : Compressor
    pub table : DynamicTable
    pub encoded : Option (List ℕ)
    pub sent : IsSent huffman t table mdel encoded
    pub done : r ≡ with_slice encoded after
    pub sync : InSync flag after table
    pub newest :
        after.tail_remote_index + after.table_elems ≤ c.tail_remote_index + c.table_elems + 1

  module _ (c : Compressor) (t : DynamicTable) (mdel : MdelemData) (s : InSync flag c t)
      (sendable : IsSendable flag mdel)
      (below : c.tail_remote_index + c.table_elems + 1 < 2 ^ 32) where
    mdelem_size-narrow : mdelem_size mdel < 2 ^ 31
    unfolding mdelem_size
    mdelem_size-narrow =
        let counted = cost-get_size_in_hpack_table mdel flag in
        let small = sendable.small in omega arith

    value-narrow : length mdel.value < 2 ^ 31
    unfolding mdelem_size
    value-narrow = omega (arith, mdelem_size-narrow)

    -- The compressor is left as it is.
    same-IsStep :
        (encoded : Option (List ℕ))
        → IsSent huffman t t mdel encoded
        → IsStep c t mdel (with_slice encoded c)
    same-IsStep encoded sent = record {
      after = c;
      table = t;
      encoded = encoded;
      sent = sent;
      done = refl;
      sync = s;
      newest = omega arith;
    }

    encode_new-IsStep : IsStep c t mdel (encode_new hash c mdel flag)
    unfolding encode_new
    encode_new-IsStep = elim (Bool-cases (check_key_exists mdel.key)) [
      | inl known ↦
          let added : IsAdded flag c t mdel (add_elem c mdel (weight flag mdel) (hash mdel.key)) =
            add_elem-IsAdded flag c t mdel (hash mdel.key) s sendable.small below in
          rw (known, added.done)
            (record {
              after = added.after;
              table = push_mdelem_data t mdel;
              encoded = _;
              sent =
                  encode_with_incremental_indexing-IsSent huffman t mdel mdelem_size-narrow
                    sendable.lower;
              done = refl;
              sync = added.sync;
              newest = added.newest;
            })
      | inr other ↦ rw other (
          same-IsStep _
            (encode_without_indexing-IsSent huffman t mdel mdelem_size-narrow sendable.lower))
    ]

    encode_found-IsStep :
        (found : Match)
        → IsMatch flag c t s mdel found
        → IsStep c t mdel (encode_found hash c mdel flag found)
    unfolding encode_found
    encode_found-IsStep not_match h = encode_new-IsStep
    encode_found-IsStep (full_match index) h = elim (Bool-cases (leb index c.tail_remote_index)) [
      | inl stale ↦ rw stale encode_new-IsStep
      | inr later ↦ elim h [
        | inl old ↦ absurd (ground arith)
        | inr leads ↦
            let beyond = leads.beyond in
            rw later (
              same-IsStep _ (
                encode_index-IsSent huffman t (dynidx c index) mdel (omega arith) leads.fits
                  leads.there))
      ]
    ]
    encode_found-IsStep (key_match index) h = elim (Bool-cases (leb index c.tail_remote_index)) [
      | inl stale ↦ rw stale encode_new-IsStep
      | inr later ↦ elim h [
        | inl old ↦ absurd (ground arith)
        | inr (e, leads, same) ↦
            let beyond = leads.beyond in
            rw later (
              same-IsStep _ (
                encode_without_indexing_key-IsSent huffman t mdel e (dynidx c index) (omega arith)
                  leads.fits leads.there same value-narrow))
      ]
    ]

    pub encode_header-IsStep : IsStep c t mdel (encode_header hash c mdel flag)
    unfolding encode_header hpack_encode_header
    encode_header-IsStep = elim (Bool-cases (full_match_static_mdelem_index mdel == 0)) [
      | inl none_there ↦ rw none_there (
          encode_found-IsStep (get_matching_index c mdel (hash mdel.key))
            (get_matching_index-IsMatch flag c t s mdel (hash mdel.key)))
      | inr found ↦
          let (positive, small, entry) = full_match_static-entry_at t mdel found in
          rw found (
            same-IsStep _ (
              encode_index-IsSent huffman t (full_match_static_mdelem_index mdel) mdel positive
                (omega arith) entry))
    ]

  pub slice-narrow :
      (c : Compressor) (t : DynamicTable) (mdel : MdelemData)
      → IsSendable flag mdel
      → (step : IsStep c t mdel (encode_header hash c mdel flag))
      → length (step.sent.first ∷ step.sent.others) ≤ 65549
  unfolding mdelem_size
  slice-narrow c t mdel sendable step =
      let small = sendable.small in
      let short = step.sent.short in
      let counted = cost-get_size_in_hpack_table mdel flag in omega arith
