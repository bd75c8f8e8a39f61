-- ===== src/BinaryStream/Shared/Bytes.antt =====
-- What one thread reads with `read_data`.
use anon_graphzeppelin.Base.{
  ℕ, ◌+◌, ◌^◌, ◌<◌, ◌≤◌, ◌≡◌, refl, ap, ◌∙◌, min, true, false, ◌||◌, List, ◌++◌, Option, some,
  length, take, drop, leb, u32, u64, if◌then◌else◌, ok, arith, length-take, length-drop,
}
use anon_graphzeppelin.BinaryStream.Shared.{
  BinaryGraphStreamMt, fetch_add, data_to_read, ReadData, read_loop, query_inside, stop_at_query,
  read_chunk, settle, read_data,
}
use anon_graphzeppelin.BinaryStream.Shared.Amount.{data_to_read-min}

module _ (pread : ℕ → ℕ → Option (List ℕ)) (bytes : List ℕ)
    (whole : (k off : ℕ)
      → off + k ≤ length bytes
      → pread k off ≡ some (take k (drop off bytes))) where
  -- The loop ends after one `pread`.
  read_loop-bytes :
      (want off : ℕ) (buf : List ℕ)
      → 0 < want
      → off + want ≤ length bytes
      → off < 2 ^ 64
      → read_loop pread 2 want off 0 buf
        ≡ some (ok (take want (drop off bytes) ++ drop want buf, want))
  unfolding read_loop
  read_loop-bytes want off buf some_bytes inside narrow =
      let here : u64 (off + 0) ≡ off = omega arith in
      let count : length (take want (drop off bytes)) ≡ want =
        length-take want (drop off bytes) (omega (arith, length-drop off bytes)) in
      let first : leb want 0 ≡ false = ground arith in
      let last : leb want want ≡ true = ground arith in
      let sum : 0 + want ≡ want = omega arith in
      rw (first, here, whole want off inside, count, sum, last) refl

  -- Where `pread` reads as many bytes as it is asked for, one call of `read_data` on a stream
  -- that no query blocks and whose offset is before the query and the end of the file, with a
  -- buffer that is not empty, is smaller than 2^32 and does not take the offset past 64 bits,
  -- fills the buffer with the bytes of the file from the offset on, up to the end of the
  -- buffer, the query or the end of the file, whichever comes first, and returns their number,
  -- which is not 0.
  pub read_data-bytes :
      (s : BinaryGraphStreamMt) (buf : List ℕ)
      → s.end_of_file ≡ length bytes
      → s.query_block ≡ false
      → s.stream_off < min s.query_index s.end_of_file
      → 0 < s.buf_size
      → s.buf_size < 2 ^ 32
      → s.stream_off + s.buf_size < 2 ^ 64
      → (d : ReadData) × (read_data pread 2 s buf ≡ some (ok d))
        × (0 < d.data_read)
        × (s.stream_off + d.data_read
            ≡ min (s.stream_off + s.buf_size) (min s.query_index s.end_of_file))
        × (d.buf ≡ take d.data_read (drop s.stream_off bytes) ++ drop d.data_read buf)
  unfolding read_data settle read_chunk fetch_add
  read_data-bytes s buf size free before b narrow fits =
      let amount = data_to_read (fetch_add s) s.stream_off in
      let (ends, some_bytes) =
        data_to_read-min (fetch_add s) s.stream_off (omega (arith, before)) (omega (arith, before))
          b fits in
      let in_file : leb s.end_of_file s.stream_off ≡ false = ground (arith, before) in
      let in_query : leb s.query_index s.stream_off ≡ false = ground (arith, before) in
      let loop =
        read_loop-bytes amount s.stream_off buf some_bytes (omega (arith, ends, size))
          (omega (arith, fits)) in
      let exact : u32 amount ≡ amount = omega (arith, ends, narrow) in
      let d : ReadData = record {
        stream =
            if query_inside (fetch_add s) s.stream_off
            then stop_at_query (fetch_add s)
            else fetch_add s;
        buf = take amount (drop s.stream_off bytes) ++ drop amount buf;
        data_read = amount;
      } in
      let test : (s.query_block || leb s.end_of_file s.stream_off || leb s.query_index s.stream_off)
          ≡ false =
        ap (λ b. b || leb s.end_of_file s.stream_off || leb s.query_index s.stream_off) free
        ∙ rw (in_file, in_query) refl in
      let chunk : read_chunk pread 2 (fetch_add s) s.stream_off buf ≡ some (ok d) =
        rw (read_chunk, loop, exact) refl in
      let settled : settle pread 2 (fetch_add s) s.stream_off buf ≡ some (ok d) =
        rw (settle, in_query, in_file) chunk in
      (
        d,
        ap
              (λ b.
                if b
                then some (ok (record { stream = s; buf = buf; data_read = 0 }))
                else settle pread 2 (fetch_add s) s.stream_off buf)
              test
            ∙ settled,
        some_bytes,
        ends,
        refl,
      )
