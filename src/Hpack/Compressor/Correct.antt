-- ===== src/Hpack/Compressor/Correct.antt =====
-- The compressor of src/hpack/send_record.cc against `decode_headers` of src/hpack/hpack.cc: blocks that the
-- one writes, the other reads, the state of the two ends in step.
use libhttp.Prelude.{
  ℕ, zero, suc, ◌+◌, ◌*◌, ◌^◌, ◌<◌, ◌≤◌, ◌≡◌, inl, refl, sym, ap, ◌∙◌, Bool, List, [], ◌∷◌, ◌++◌,
  Option, some, length, length-append, length-replicate, append-nil, append_assoc, All,
  All-replicate, arith,
}
use libhttp.Hpack.{MdelemData}
use libhttp.Hpack.Dynamic.{DynamicTable, dynamic_table_init}
use libhttp.Hpack.Decode.{Huffman, decode_headers, decode_rounds, returns}
use libhttp.Hpack.Decode.Indexed.{IsSent}
use libhttp.SliceBuffer.{SliceBuffer, add_slice}
use libhttp.SliceBuffer.Bytes.{bytes, IsValid}
use libhttp.SliceBuffer.Moves.{Holds, add_slice-Holds}
use libhttp.Hpack.Compressor.{
  Compressor, Hash, with_slice, encode_header, compressor_encode_headers, compressor_init,
  elems_for_bytes, no_record,
}
use libhttp.Hpack.Compressor.Sync.{InSync, IsFresh}
use libhttp.Hpack.Compressor.Step.{IsSendable, IsStep, encode_header-IsStep, slice-narrow}

module _ (huffman : Huffman) (hash : Hash) (flag : Bool) where
  -- A block was written behind what the output held, and the decoder reads it back.
  pub record IsBlock (c : Compressor) (t : DynamicTable) (md : List MdelemData)
      (output : SliceBuffer) : Type 0 where
    pub block : List ℕ
    pub result : SliceBuffer
    pub after : Compressor
    pub table : DynamicTable
    pub encoded : compressor_encode_headers hash c md output flag ≡ some (result, after)
    pub holds : Holds result (bytes output ++ block)
    pub decoded : decode_headers huffman block t ≡ returns 0 table md
    pub sync : InSync flag after table

  -- The rounds of the decoder over a block from the table to `table`.
  abbrev Decodes : List ℕ → DynamicTable → DynamicTable → List MdelemData → Type 0
  Decodes block t table md =
      (fuel : ℕ) (headers : List MdelemData)
      → length block ≤ fuel
      → length block < 2 ^ 32
      → decode_rounds huffman fuel block t headers ≡ returns 0 table (headers ++ md)

  record IsRun (c : Compressor) (t : DynamicTable) (md : List MdelemData) (output : SliceBuffer)
      : Type 0 where
    block : List ℕ
    result : SliceBuffer
    after : Compressor
    table : DynamicTable
    encoded : compressor_encode_headers hash c md output flag ≡ some (result, after)
    holds : Holds result (bytes output ++ block)
    short : length block ≤ length md * 65549
    decoded : Decodes block t table md
    sync : InSync flag after table

  cons-decoded :
      {t t' table : DynamicTable} {mdel : MdelemData} {md : List MdelemData}
      {encoded : Option (List ℕ)}
      → (sent : IsSent huffman t t' mdel encoded) (block : List ℕ) → Decodes block t' table md
      → Decodes (sent.first ∷ (sent.others ++ block)) t table (mdel ∷ md)
  unfolding decode_rounds
  cons-decoded sent block rest zero headers enough fits = absurd (omega arith)
  cons-decoded {table} {mdel} {md} sent block rest (suc fuel) headers enough fits =
      let longer = length-append sent.others block in
      rw (decode_rounds, sent.decoded block fits)
        (rest fuel (headers ++ (mdel ∷ [])) (omega arith) (omega arith)
          ∙ ap (returns 0 table) (append_assoc headers (mdel ∷ []) md))

  -- The field in front, and the rest of the block.
  cons-IsRun :
      (c : Compressor) (t : DynamicTable) (mdel : MdelemData) (md : List MdelemData)
      (output : SliceBuffer)
      → IsValid output
      → IsSendable flag mdel
      → length (bytes output) + length (mdel ∷ md) * 65549 < 2 ^ 64
      → (step : IsStep huffman hash flag c t mdel (encode_header hash c mdel flag))
      → IsRun step.after step.table md (add_slice output (step.sent.first ∷ step.sent.others))
      → IsRun c t (mdel ∷ md) output
  unfolding compressor_encode_headers
  cons-IsRun c t mdel md output valid sendable wide step run =
      let slice = step.sent.first ∷ step.sent.others in
      let narrow = slice-narrow huffman hash flag c t mdel sendable step in
      let run_short = run.short in
      let added = add_slice-Holds output slice valid (omega arith) in
      let longer = length-append slice run.block in
      let done : encode_header hash c mdel flag ≡ some (slice, step.after) =
        step.done ∙ ap (λ o. with_slice o step.after) step.sent.done in
      record {
        block = slice ++ run.block;
        result = run.result;
        after = run.after;
        table = run.table;
        encoded = rw (compressor_encode_headers, done) run.encoded;
        holds = record {
          valid = run.holds.valid;
          content =
              run.holds.content
              ∙ ap (λ bs. bs ++ run.block) added.content
              ∙ append_assoc (bytes output) slice run.block;
        };
        short = omega arith;
        decoded = λ fuel headers enough fits.
            cons-decoded step.sent run.block run.decoded fuel headers enough fits;
        sync = run.sync;
      }

  compressor_encode_headers-IsRun :
      (c : Compressor) (t : DynamicTable) (md : List MdelemData) (output : SliceBuffer)
      → InSync flag c t
      → IsValid output
      → All (IsSendable flag) md
      → c.tail_remote_index + c.table_elems + length md < 2 ^ 32
      → length (bytes output) + length md * 65549 < 2 ^ 64
      → IsRun c t md output
  unfolding compressor_encode_headers decode_rounds
  compressor_encode_headers-IsRun c t [] output s valid sendable below wide = record {
    block = [];
    result = output;
    after = c;
    table = t;
    encoded = refl;
    holds = record { valid = valid; content = sym (append-nil (bytes output)) };
    short = omega arith;
    decoded = λ fuel headers enough fits. ap (returns 0 t) (sym (append-nil headers));
    sync = s;
  }
  compressor_encode_headers-IsRun c t (mdel ∷ md) output s valid sendable below wide =
      let step = encode_header-IsStep huffman hash flag c t mdel s sendable.0 (omega arith) in
      let newest = step.newest in
      let slice = step.sent.first ∷ step.sent.others in
      let fits = slice-narrow huffman hash flag c t mdel sendable.0 step in
      let added = add_slice-Holds output slice valid (omega arith) in
      let longer = ap length added.content ∙ length-append (bytes output) slice in
      cons-IsRun c t mdel md output valid sendable.0 wide step (
        compressor_encode_headers-IsRun step.after step.table md (add_slice output slice) step.sync
          added.valid sendable.1 (omega arith) (omega arith))

-- From ends in step, a block of fewer than 65000 fields, with names in lower case and each of a size
-- below 65536 as the compressor counts it, is encoded without an assertion failing, into bytes that
-- go behind those the output buffer held; `decode_headers` returns NO_ERROR and these fields in
-- their order, whatever the hash and the Huffman code; and the two ends are in step again; while the
-- entries ever added number less than 2^32, the output fits `size_t` and is in order.
pub compressor_encode_headers-IsBlock :
    (huffman : Huffman) (hash : Hash) (flag : Bool) (c : Compressor) (t : DynamicTable)
    (md : List MdelemData) (output : SliceBuffer)
    → InSync flag c t
    → IsValid output
    → All (IsSendable flag) md
    → length md < 65000
    → c.tail_remote_index + c.table_elems + length md < 2 ^ 32
    → length (bytes output) + length md * 65549 < 2 ^ 64
    → IsBlock huffman hash flag c t md output
unfolding decode_headers
compressor_encode_headers-IsBlock huffman hash flag c t md output s valid sendable few below wide =
    let run =
      compressor_encode_headers-IsRun huffman hash flag c t md output s valid sendable below wide in
    let short = run.short in
    record {
      block = run.block;
      result = run.result;
      after = run.after;
      table = run.table;
      encoded = run.encoded;
      holds = run.holds;
      decoded = run.decoded (length run.block) [] (omega arith) (omega arith);
      sync = run.sync;
    }

-- The ends of a new connection are in step: `compressor_init` with the table of the decoder that
-- the default size makes.
pub compressor_init-InSync : (flag : Bool) → InSync flag compressor_init (dynamic_table_init 4096)
unfolding compressor_init dynamic_table_init
compressor_init-InSync flag = record {
  kept = [];
  older = [];
  split = refl;
  tracks = record {
    count = refl;
    size = refl;
    fits = omega arith;
    small = omega arith;
    room = refl;
    ring_room = omega arith;
    ring_length = length-replicate {A = ℕ} (elems_for_bytes 4096) 0;
    ring = λ i x h. absurd (cc h);
    slots = All-replicate (IsFresh flag 0 []) 64 no_record (inl (omega arith));
  };
  accounted = record { exact = refl; narrow = omega arith };
  within = omega arith;
  bounded = omega arith;
  no_more = omega arith;
}
