-- ===== src/BinaryStream/Shared/Amount.antt =====
-- How many bytes a call of `read_data` reads.
use anon_graphzeppelin.Base.{ℕ, ◌+◌, ◌<◌, ◌^◌, ◌≡◌, min, arith}
use anon_graphzeppelin.BinaryStream.Shared.{BinaryGraphStreamMt, query_inside, data_to_read}

-- The read ends at the end of the buffer, at the query or at the end of the file.
pub data_to_read-min :
    (s : BinaryGraphStreamMt) (r : ℕ)
    → r < s.query_index
    → r < s.end_of_file
    → 0 < s.buf_size
    → r + s.buf_size < 2 ^ 64
    → (r + data_to_read s r ≡ min (r + s.buf_size) (min s.query_index s.end_of_file))
      × (0 < data_to_read s r)
unfolding data_to_read query_inside
data_to_read-min s r h k b small = ground arith
