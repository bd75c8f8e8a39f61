-- ===== src/BinaryStream/Order.antt =====
-- What a `BinaryGraphStream` has ahead, and that a read of the file keeps it.
use anon_graphzeppelin.Base.{
  ℕ, ◌+◌, ◌*◌, ◌<◌, ◌≤◌, ◌≡◌, refl, sym, ap, ap₂, ◌∙◌, ◌⊎◌, inl, inr, true, false, List, [], ◌++◌,
  length, take, drop, arith, length-append, take_all, drop_all, length-drop, length-take,
  take-append-drop, Bool-cases, ltb, ltb→lt, ltb→le, ok,
}
use anon_graphzeppelin.Types.{GraphUpdate}
use anon_graphzeppelin.BinaryStream.{write_updates, File, read_file, BinaryGraphStream, read_data}
use anon_graphzeppelin.BinaryStream.Format.{length-write_updates, take-write_updates}
use mathlib.Core.List.{append-nil}

-- The file reads on and the buffer holds updates alone, or all updates of the file are in the buffer.
abbrev pub ReadsOn : File → List GraphUpdate → List ℕ → ℕ → List GraphUpdate → Type 0
ReadsOn f later junk slots now =
    ((later ≡ []) × (f.eof ≡ true))
    ⊎ ((f.eof ≡ false)
        × (f.failed ≡ false)
        × (f.broken ≡ false)
        × (junk ≡ [])
        × (slots ≡ length now))

-- The updates `us` are what the stream will return: those in the buffer, `now`, and the `later` ones.
pub record Ahead (s : BinaryGraphStream) (us : List GraphUpdate) : Type 0 where
  pub now : List GraphUpdate
  pub later : List GraphUpdate
  pub junk : List ℕ
  pub slots : ℕ
  pub cells : ℕ
  pub split : us ≡ now ++ later
  pub in_buffer : drop s.pos s.memory ≡ write_updates now ++ junk
  pub size : length s.memory ≡ s.buf_size
  pub room : s.pos + slots * 9 ≡ s.buf_size
  pub slots_gt : 0 < slots
  pub whole : s.buf_size ≡ cells * 9
  pub cells_gt : 0 < cells
  pub in_file : s.bin_file.left ≡ write_updates later
  pub reads_on : ReadsOn s.bin_file later junk slots now

-- A buffer of `k` updates is filled.
pub read_data-Ahead :
    (s : BinaryGraphStream) (us : List GraphUpdate) (k : ℕ)
    → s.buf_size ≡ k * 9
    → 0 < k
    → length s.memory ≡ s.buf_size
    → s.bin_file.left ≡ write_updates us
    → ((us ≡ []) × (s.bin_file.eof ≡ true))
      ⊎ ((s.bin_file.eof ≡ false) × (s.bin_file.failed ≡ false) × (s.bin_file.broken ≡ false))
    → (t : BinaryGraphStream) × (read_data s ≡ ok t)
      × Ahead t us
      × (t.num_nodes ≡ s.num_nodes)
      × (t.num_edges ≡ s.num_edges)
unfolding read_data read_file write_updates
read_data-Ahead s us k bk kp sz left (inl (none_left, eof)) = (
  record s { bin_file = record s.bin_file { failed = true }; pos = 0 },
  rw (eof) refl,
  record {
    now = [];
    later = [];
    junk = s.memory;
    slots = k;
    cells = k;
    split = none_left;
    in_buffer = refl;
    size = sz;
    room = omega arith;
    slots_gt = kp;
    whole = bk;
    cells_gt = kp;
    in_file = left ∙ ap write_updates none_left;
    reads_on = inl (refl, eof);
  },
  refl,
  refl,
)
read_data-Ahead s us k bk kp sz left (inr (eof, failed, broken)) =
    elim (Bool-cases (ltb (length s.bin_file.left) s.buf_size)) [
      | inl short ↦
          let lt = ltb→lt (length s.bin_file.left) s.buf_size short in
          let whole = take_all s.buf_size s.bin_file.left (omega arith) in
          let nothing = drop_all s.buf_size s.bin_file.left (omega arith) in
          (
            record s {
              bin_file = record { left = []; eof = true; failed = true; broken = false };
              memory = s.bin_file.left ++ drop (length s.bin_file.left) s.memory;
              pos = 0;
            },
            rw (eof, failed, broken, short, whole, nothing) refl,
            record {
              now = us;
              later = [];
              junk = drop (length s.bin_file.left) s.memory;
              slots = k;
              cells = k;
              split = sym (append-nil us);
              in_buffer = ap (λ l. l ++ drop (length s.bin_file.left) s.memory) left;
              size = omega (
                arith,
                length-append s.bin_file.left (drop (length s.bin_file.left) s.memory),
                length-drop (length s.bin_file.left) s.memory,
              );
              room = omega arith;
              slots_gt = kp;
              whole = bk;
              cells_gt = kp;
              in_file = refl;
              reads_on = inl (refl, refl);
            },
            refl,
            refl,
          )
      | inr long ↦
          let le = ltb→le (length s.bin_file.left) s.buf_size long in
          let many : k ≤ length us = omega (arith, length-write_updates us, ap length left) in
          let e = length-take s.buf_size s.bin_file.left le in
          let (taken, dropped) = take-write_updates k us many in
          let none_over : drop s.buf_size s.memory ≡ [] =
            drop_all s.buf_size s.memory (omega arith) in
          let start = ap₂ take bk left ∙ taken in
          (
            record s {
              bin_file = record {
                left = drop s.buf_size s.bin_file.left;
                eof = false;
                failed = false;
                broken = false;
              };
              memory = take s.buf_size s.bin_file.left ++ [];
              pos = 0;
            },
            rw (eof, failed, broken, long, e, none_over) refl,
            record {
              now = take k us;
              later = drop k us;
              junk = [];
              slots = k;
              cells = k;
              split = sym (take-append-drop k us);
              in_buffer = ap (λ l. l ++ []) start;
              size = ap length (append-nil (take s.buf_size s.bin_file.left)) ∙ e;
              room = omega arith;
              slots_gt = kp;
              whole = bk;
              cells_gt = kp;
              in_file = ap₂ drop bk left ∙ dropped;
              reads_on = inr (refl, refl, refl, refl, sym (length-take k us many));
            },
            refl,
            refl,
          )
    ]
