-- ===== src/BinaryStream/Calls.antt =====
-- What `BinaryGraphStream` returns of a whole file.
use anon_graphzeppelin.Base.{
  no_elements, ℕ, ◌+◌, ◌-◌, ◌*◌, ◌%◌, ◌/◌, ◌^◌, ◌<◌, ◌≤◌, ◌≡◌, refl, sym, ap, ap₂, ◌∙◌, ◌⊎◌, inl,
  inr, true, false, List, [], ◌∷◌, ◌++◌, some, length, drop, arith, length-append, length-drop,
  drop_add, drop-length_append, take-length_append, Bool-cases, ltb, le→ltb, ◌==◌, ==_iff, ok,
  List-cases,
}
use anon_graphzeppelin.Types.{GraphUpdate}
use anon_graphzeppelin.Stream.{write_uint, read_uint-write_uint, length-write_uint}
use anon_graphzeppelin.BinaryStream.{
  write_update, write_updates, File, read_file, BinaryGraphStream, uint_of, open_stream, refill,
  got, get_edge, Taken, keep, get_edges,
}
use anon_graphzeppelin.BinaryStream.Format.{
  IsUpdate, AreUpdates, read_update-write_update, length-write_update, length-write_updates,
}
use anon_graphzeppelin.BinaryStream.Order.{ReadsOn, Ahead, read_data-Ahead}
use mathlib.Core.List.{append_assoc}

tail_of : {A : Type 0} → List A → List A
tail_of [] = []
tail_of (x ∷ xs) = xs

head_or : {A : Type 0} → A → List A → A
head_or d [] = d
head_or d (x ∷ xs) = x

-- The first update that is ahead is in the buffer.
first-Ahead :
    (s : BinaryGraphStream) (u : GraphUpdate) (us : List GraphUpdate) (a : Ahead s (u ∷ us))
    → (rest : List GraphUpdate) × (a.now ≡ u ∷ rest) × (us ≡ rest ++ a.later)
unfolding tail_of head_or
first-Ahead s u us a = elim (List-cases a.now) [
  | inl none_now ↦ elim a.reads_on [
    | inl (none_later, eof) ↦
        absurd (omega (arith, ap length (a.split ∙ ap₂ ◌++◌ none_now none_later)))
    | inr (eof, failed, broken, clean, count) ↦
        absurd (omega (arith, a.slots_gt, count ∙ ap length none_now))
  ]
  | inr (v, rest, e) ↦
      let both : u ∷ us ≡ v ∷ (rest ++ a.later) = a.split ∙ ap (λ l. l ++ a.later) e in
      (rest, e ∙ ap (λ w. w ∷ rest) (sym (ap (head_or u) both)), ap tail_of both)
]

flags_of :
    (f : File) (slots : ℕ) (now : List GraphUpdate) {later us : List GraphUpdate} {junk : List ℕ}
    → ReadsOn f later junk slots now
    → us ≡ later
    → ((us ≡ []) × (f.eof ≡ true)) ⊎ ((f.eof ≡ false) × (f.failed ≡ false) × (f.broken ≡ false))
flags_of f slots now (inl (none_later, eof)) e = inl (e ∙ none_later, eof)
flags_of f slots now (inr (eof, failed, broken, _, _)) e = inr (eof, failed, broken)

ReadsOn-after :
    (f : File) (slots : ℕ) {later now rest : List GraphUpdate} {junk : List ℕ} {u : GraphUpdate}
    → now ≡ u ∷ rest
    → ReadsOn f later junk slots now
    → ReadsOn f later junk (slots - 1) rest
ReadsOn-after f slots e (inl h) = inl h
ReadsOn-after f slots e (inr (eof, failed, broken, clean, count)) =
    inr (eof, failed, broken, clean, omega (arith, count, ap length e))

two_slots :
    (pos slots size : ℕ)
    → pos + slots * 9 ≡ size
    → 0 < slots
    → ((pos + 9) == size) ≡ false
    → 0 < slots - 1
two_slots pos slots size room gt more = ground arith

-- One call returns the first update that is ahead.
pub get_edge-Ahead :
    (s : BinaryGraphStream) (u : GraphUpdate) (us : List GraphUpdate)
    → IsUpdate u
    → Ahead s (u ∷ us)
    → (t : BinaryGraphStream) × (get_edge s ≡ some (ok (record { update = u; stream = t })))
      × Ahead t us
unfolding get_edge refill got write_updates
get_edge-Ahead s u us hu a =
    let (rest, e, later) = first-Ahead s u us a in
    let here : drop s.pos s.memory ≡ write_update u ++ (write_updates rest ++ a.junk) =
      a.in_buffer ∙ rw (e) (append_assoc (write_update u) (write_updates rest) a.junk) in
    let next : drop (s.pos + 9) s.memory ≡ write_updates rest ++ a.junk =
      drop_add s.pos 9 s.memory
      ∙ ap (drop 9) here
      ∙ ap (λ i. drop i (write_update u ++ (write_updates rest ++ a.junk)))
          (sym (length-write_update u))
      ∙ drop-length_append (write_update u) (write_updates rest ++ a.junk) in
    let read = read_update-write_update u (write_updates rest ++ a.junk) hu in
    elim (Bool-cases ((s.pos + 9) == s.buf_size)) [
      | inl last ↦
          let none_rest : rest ≡ [] = no_elements rest (
            omega (
              arith,
              (==_iff (s.pos + 9) s.buf_size).0 last,
              a.size,
              length-drop (s.pos + 9) s.memory,
              ap length next,
              length-append (write_updates rest) a.junk,
              length-write_updates rest,
            )) in
          let us_later : us ≡ a.later = later ∙ ap (λ l. l ++ a.later) none_rest in
          let (t, e', ahead, n, m) =
            read_data-Ahead (record s { pos = s.pos + 9 }) us a.cells a.whole a.cells_gt a.size
              (a.in_file ∙ ap write_updates (sym us_later))
              (flags_of s.bin_file a.slots a.now a.reads_on us_later) in
          (t, rw (here, read, last, e') refl, ahead)
      | inr more ↦ (
        record s { pos = s.pos + 9 },
        rw (here, read, more) refl,
        record {
          now = rest;
          later = a.later;
          junk = a.junk;
          slots = a.slots - 1;
          cells = a.cells;
          split = later;
          in_buffer = next;
          size = a.size;
          room = omega (arith, a.room, a.slots_gt);
          slots_gt = two_slots s.pos a.slots s.buf_size a.room a.slots_gt more;
          whole = a.whole;
          cells_gt = a.cells_gt;
          in_file = a.in_file;
          reads_on = ReadsOn-after s.bin_file a.slots e a.reads_on;
        },
      )
    ]

-- The calls return what is ahead, in its order.
get_edges-Ahead :
    (s : BinaryGraphStream) (us : List GraphUpdate)
    → AreUpdates us
    → Ahead s us
    → (t : Taken) × (get_edges (length us) s ≡ some (ok t)) × (t.updates ≡ us)
unfolding get_edges keep
get_edges-Ahead s [] hus a = (record { updates = []; stream = s }, refl, refl)
get_edges-Ahead s (u ∷ us) (hu, hus) a =
    let (t, e, b) = get_edge-Ahead s u us hu a in
    let (taken, e', same) = get_edges-Ahead t us hus b in
    (
      record { updates = u ∷ taken.updates; stream = taken.stream },
      rw (get_edges, e, e') refl,
      ap (◌∷◌ u) same,
    )

abbrev pub fresh : List ℕ → File
fresh bytes = record { left = bytes; eof = false; failed = false; broken = false }

-- A read of bytes that are there.
read_file-fresh :
    (k : ℕ) (xs ys memory : List ℕ)
    → length xs ≡ k
    → read_file k (fresh (xs ++ ys)) memory
      ≡ record { file = fresh ys; memory = xs ++ drop (length xs) memory }
unfolding read_file
read_file-fresh k xs ys memory e =
    let enough : ltb (length (xs ++ ys)) (length xs) ≡ false =
      le→ltb (length (xs ++ ys)) (length xs) (omega (arith, length-append xs ys)) in
    rw (← e, enough, take-length_append xs ys, drop-length_append xs ys) refl

uint_of-write_uint :
    (k v : ℕ) (rest : List ℕ) → v < 256 ^ k → uint_of k (write_uint k v ++ rest) ≡ v
unfolding uint_of
uint_of-write_uint k v rest h = rw (uint_of, read_uint-write_uint k v rest h) refl

-- The constructor reads the header and the first updates.
pub open_stream-Ahead :
    (us : List GraphUpdate) (n b : ℕ) (nodes edges heap : List ℕ)
    → AreUpdates us
    → n < 2 ^ 32
    → length us < 2 ^ 64
    → 9 ≤ b
    → length heap ≡ b - b % 9
    → (s : BinaryGraphStream) × (open_stream
          (some (fresh (write_uint 4 n ++ (write_uint 8 (length us) ++ write_updates us))))
          b
          nodes
          edges
          heap
        ≡ ok s)
      × (s.num_nodes ≡ n)
      × (s.num_edges ≡ length us)
      × Ahead s us
unfolding open_stream
open_stream-Ahead us n b nodes edges heap hus hn hus_lt hb hheap =
    let after = write_uint 8 (length us) ++ write_updates us in
    let first = read_file-fresh 4 (write_uint 4 n) after nodes (length-write_uint 4 n) in
    let second =
      read_file-fresh 8 (write_uint 8 (length us)) (write_updates us) edges
        (length-write_uint 8 (length us)) in
    let opened : BinaryGraphStream = record {
      bin_file = fresh (write_updates us);
      memory = heap;
      pos = 0;
      buf_size = b - b % 9;
      num_nodes = n;
      num_edges = length us;
    } in
    let (s, e, ahead, nodes_same, edges_same) =
      read_data-Ahead opened us (b / 9) (omega arith) (omega arith) hheap refl
        (inr (refl, refl, refl)) in
    (
      s,
      rw
          (
            first,
            second,
            uint_of-write_uint 4 n (drop (length (write_uint 4 n)) nodes) (omega arith),
            uint_of-write_uint 8 (length us) (drop (length (write_uint 8 (length us))) edges)
                (omega arith),
          )
          e,
      nodes_same,
      edges_same,
      ahead,
    )

-- A file of a header and its updates, where 4 bytes hold the number of nodes and 8 the number of
-- updates, and 9 bytes hold each update: the stream has the numbers of the header, and as many
-- calls of `get_edge` as there are updates return them in their order and throw nothing, for
-- every size of the buffer that an update fits in.
pub get_edges-open_stream :
    (us : List GraphUpdate) (n b : ℕ) (nodes edges heap : List ℕ)
    → AreUpdates us
    → n < 2 ^ 32
    → length us < 2 ^ 64
    → 9 ≤ b
    → length heap ≡ b - b % 9
    → (s : BinaryGraphStream) × (open_stream
          (some (fresh (write_uint 4 n ++ (write_uint 8 (length us) ++ write_updates us))))
          b
          nodes
          edges
          heap
        ≡ ok s)
      × (s.num_nodes ≡ n)
      × (s.num_edges ≡ length us)
      × (t : Taken) × (get_edges s.num_edges s ≡ some (ok t))
      × (t.updates ≡ us)
get_edges-open_stream us n b nodes edges heap hus hn hus_lt hb hheap =
    let (s, e, nodes_same, edges_same, ahead) =
      open_stream-Ahead us n b nodes edges heap hus hn hus_lt hb hheap in
    let (t, taken, same) = get_edges-Ahead s us hus ahead in
    (s, e, nodes_same, edges_same, t, ap (λ k. get_edges k s) edges_same ∙ taken, same)
