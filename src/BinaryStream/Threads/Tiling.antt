-- ===== src/BinaryStream/Threads/Tiling.antt =====
-- The chunks of all threads together: no byte twice, none left out, none beyond the query or the end
-- of the file.
use anon_graphzeppelin.Base.{
  ℕ, ◌+◌, ◌*◌, ◌≤◌, ◌<◌, ◌≡◌, refl, sym, ap, subst, ◌∙◌, min, ◌⊎◌, inl, inr, true, List, [], ◌∷◌,
  ◌++◌, length, get_or, set, if◌then◌else◌, arith, length-set, Bool-cases, ltb, ltb→lt, ltb→le, u64,
}
use anon_graphzeppelin.BinaryStream.Shared.{
  BinaryGraphStreamMt, no_query, fetch_add, stop_at_query, query_inside, data_to_read,
  on_demand_query,
}
use anon_graphzeppelin.BinaryStream.Shared.Amount.{data_to_read-min}
use anon_graphzeppelin.BinaryStream.Threads.{Pc, Chunk, World, chunk_of, truncated, Step, Reach}
use anon_graphzeppelin.BinaryStream.Threads.Pending.{
  pending, pendings, swap_front, weight, load, load-set, All-set, All-impl, pending_over,
  pending_under,
}
use anon_graphzeppelin.BinaryStream.Threads.Moves.{
  Tiles, limit, MayStart, Passed, at, Tiling, start-Tiling, Passed-mono, moved_to, pendings-move,
  quiet, stop,
}
use mathlib.Core.List.{Permᴰ}
use mathlib.Core.List.Permᴰ

-- The chunk of a `fetch_add` lies behind all chunks before it.
fetch-Tiles :
    (s : BinaryGraphStreamMt) (n : ℕ) (w : World) (t : Tiling s n w)
    → MayStart s n
    → t.off + s.buf_size ≤ s.end_of_file + n * s.buf_size
    → Tiles s.stream_off
        (pending s (Pc.fetched t.off) ++ t.claims)
        (min (t.off + s.buf_size) (limit s))
fetch-Tiles s n w t m bound = elim (Bool-cases (ltb t.off (limit s))) [
  | inl under ↦
      let lt = ltb→lt t.off (limit s) under in
      let (ends, some_bytes) =
        data_to_read-min s t.off (omega (arith, lt)) (omega (arith, lt)) m.buf_gt
          (omega (arith, bound, m.small)) in
      subst (λ l. Tiles s.stream_off (l ++ t.claims) (min (t.off + s.buf_size) (limit s)))
        (sym (pending_under s t.off (omega (arith, lt)) (omega (arith, lt))))
        (
          some_bytes,
          ends,
          subst (Tiles s.stream_off t.claims) {x = min t.off (limit s)} (omega (arith, lt)) t.tiles,
        )
  | inr over ↦
      let le = ltb→le t.off (limit s) over in
      subst (λ l. Tiles s.stream_off (l ++ t.claims) (min (t.off + s.buf_size) (limit s)))
        (sym (pending_over s t.off (either_over s.query_index s.end_of_file t.off le)))
        (subst (Tiles s.stream_off t.claims) {x = min t.off (limit s)} (omega (arith, le)) t.tiles)
]
  where
    either_over : (q e x : ℕ) → min q e ≤ x → (q ≤ x) ⊎ (e ≤ x)
    either_over q e x h = ground arith

no_wrap : (v : ℕ) → v < no_query → u64 v ≡ v
no_wrap v h = omega arith

fetched :
    (s : BinaryGraphStreamMt) (n : ℕ) (w : World) (i : ℕ)
    → MayStart s n
    → Tiling s n w
    → i < length w.pcs
    → get_or w.pcs i Pc.idle ≡ Pc.checked
    → Tiling s n (record {
      stream = fetch_add w.stream;
      pcs = set w.pcs i (Pc.fetched w.stream.stream_off);
      reads = w.reads;
    })
unfolding fetch_add pending weight
fetched s n w i m t lt e =
    let here : w.stream.stream_off ≡ t.off = ap (λ st. st.stream_off) t.same in
    let weights : load s.buf_size (set w.pcs i (Pc.fetched t.off)) + s.buf_size
        ≡ load s.buf_size w.pcs =
      omega (arith, load-set s.buf_size w.pcs i (Pc.fetched t.off) lt, ap (weight s.buf_size) e) in
    let bound : t.off + s.buf_size ≤ s.end_of_file + n * s.buf_size =
      omega (arith, t.loads, weights) in
    subst
      (λ o.
        Tiling s n (record {
          stream = fetch_add w.stream;
          pcs = set w.pcs i (Pc.fetched o);
          reads = w.reads;
        }))
      (sym here)
      (record {
        off = t.off + s.buf_size;
        ask = t.ask;
        claims = pending s (Pc.fetched t.off) ++ t.claims;
        same =
            ap fetch_add t.same
            ∙ ap (λ o. at s o t.ask) (no_wrap (t.off + s.buf_size) (omega (arith, bound, m.small)));
        count = length-set w.pcs i (Pc.fetched t.off) ∙ t.count;
        perm = Permᴰ.trans (Permᴰ.append_left (pending s (Pc.fetched t.off)) t.perm) (
            Permᴰ.trans (swap_front (pending s (Pc.fetched t.off)) w.reads (pendings s w.pcs)) (
              Permᴰ.append_left w.reads (
                Permᴰ.symm (
                  pendings-move s w i (Pc.fetched t.off) [] (pending s (Pc.fetched t.off)) lt
                    (ap (pending s) e) refl))));
        tiles = fetch-Tiles s n w t m bound;
        loads = omega (arith, t.loads, weights);
        passed =
            All-set (Passed s n (t.off + s.buf_size)) w.pcs i (Pc.fetched t.off)
              (All-impl (Passed s n t.off) (Passed s n (t.off + s.buf_size)) w.pcs
                (Passed-mono s n t.off (t.off + s.buf_size) (omega arith)) t.passed)
              (omega arith, bound);
      })

query_inside-lt :
    (st : BinaryGraphStreamMt) (r : ℕ) → query_inside st r ≡ true → st.query_index < r + st.buf_size
unfolding query_inside
query_inside-lt st r h = ground arith

-- A thread reads its chunk.
has_read :
    (s : BinaryGraphStreamMt) (n : ℕ) (w : World) (i r : ℕ)
    → MayStart s n
    → Tiling s n w
    → i < length w.pcs
    → get_or w.pcs i Pc.idle ≡ Pc.fetched r
    → r < w.stream.query_index
    → r < w.stream.end_of_file
    → Tiling s n (record {
      stream = truncated w.stream r;
      pcs = set w.pcs i Pc.idle;
      reads = chunk_of w.stream r ∷ w.reads;
    })
unfolding truncated data_to_read query_inside pending weight
has_read s n w i r m t lt e under inside =
    let q = ap (λ st. st.query_index) t.same in
    let f = ap (λ st. st.end_of_file) t.same in
    let same_chunk : chunk_of w.stream r ≡ chunk_of s r = ap (λ st. chunk_of st r) t.same in
    let out : pending s (get_or w.pcs i Pc.idle) ≡ chunk_of s r ∷ [] =
      ap (pending s) e ∙ pending_under s r (omega (arith, under, q)) (omega (arith, inside, f)) in
    let perm' : Permᴰ t.claims ((chunk_of s r ∷ w.reads) ++ pendings s (set w.pcs i Pc.idle)) =
      Permᴰ.trans t.perm (
        Permᴰ.trans
          (Permᴰ.append_left w.reads
            (Permᴰ.symm (pendings-move s w i Pc.idle (chunk_of s r ∷ []) [] lt out refl)))
          (Permᴰ.middle (chunk_of s r) w.reads (pendings s (set w.pcs i Pc.idle)))) in
    subst
      (λ c.
        Tiling s n (record {
          stream = truncated w.stream r;
          pcs = set w.pcs i Pc.idle;
          reads = c ∷ w.reads;
        }))
      (sym same_chunk)
      (elim (Bool-cases (query_inside w.stream r)) [
        | inl cut ↦
            subst
              (λ st.
                Tiling s n (record {
                  stream = st;
                  pcs = set w.pcs i Pc.idle;
                  reads = chunk_of s r ∷ w.reads;
                }))
              (sym (ap (λ b. if b then stop_at_query w.stream else w.stream) cut))
              (stop s n w i r t (chunk_of s r ∷ w.reads) m e
                (omega (arith, query_inside-lt w.stream r cut, q, ap (λ st. st.buf_size) t.same))
                perm')
        | inr whole ↦
            subst
              (λ st.
                Tiling s n (record {
                  stream = st;
                  pcs = set w.pcs i Pc.idle;
                  reads = chunk_of s r ∷ w.reads;
                }))
              (sym (ap (λ b. if b then stop_at_query w.stream else w.stream) whole))
              (moved_to s n w i Pc.idle t w.stream t.off (chunk_of s r ∷ w.reads) t.same perm' refl
                (omega (arith, t.loads, load-set s.buf_size w.pcs i Pc.idle lt)) _)
      ])

step-Tiling :
    (s : BinaryGraphStreamMt) (n : ℕ) (w w' : World) (i : ℕ)
    → MayStart s n
    → Tiling s n w
    → i < length w.pcs
    → Step w i w'
    → Tiling s n w'
unfolding pending weight
step-Tiling s n w w' i m t lt (Step.blocked e b) = t
step-Tiling s n w w' i m t lt (Step.ended e b) = t
step-Tiling s n w w' i m t lt (Step.enter e b before) =
    quiet s n w i Pc.in_file t lt (ap (pending s) e) refl
      (inr
        (omega (arith, before, ap (λ st. st.stream_off) t.same, ap (λ st. st.end_of_file) t.same)))
      _
step-Tiling s n w w' i m t lt (Step.stopped e past) =
    quiet s n w i Pc.idle t lt (ap (pending s) e) refl (inl (omega arith)) _
step-Tiling s n w w' i m t lt (Step.pass e under) =
    quiet s n w i Pc.checked t lt (ap (pending s) e) refl
      (inl (omega (arith, ap (weight s.buf_size) e))) _
step-Tiling s n w w' i m t lt (Step.fetch e) = fetched s n w i m t lt e
step-Tiling s n w w' i m t lt (Step.past_query r e past) =
    stop s n w i r t w.reads m e (omega (arith, past, m.buf_gt, ap (λ st. st.query_index) t.same)) (
      Permᴰ.trans t.perm (
        Permᴰ.append_left w.reads (
          Permᴰ.symm (
            pendings-move s w i Pc.idle [] [] lt
              (ap (pending s) e
                ∙ pending_over s r (inl (omega (arith, past, ap (λ st. st.query_index) t.same))))
              refl))))
step-Tiling s n w w' i m t lt (Step.past_end r e under past) =
    quiet s n w i Pc.idle t lt
      (ap (pending s) e
        ∙ pending_over s r (inr (omega (arith, past, ap (λ st. st.end_of_file) t.same))))
      refl (inl (omega arith)) _
step-Tiling s n w w' i m t lt (Step.read r e under inside) =
    has_read s n w i r m t lt e under inside

ask-Tiling :
    (s : BinaryGraphStreamMt) (n : ℕ) (w : World)
    → Tiling s n w
    → Tiling s n (record w { stream = on_demand_query w.stream })
unfolding on_demand_query
ask-Tiling s n w t = record {
  off = t.off;
  ask = true;
  claims = t.claims;
  same = ap on_demand_query t.same;
  count = t.count;
  perm = t.perm;
  tiles = t.tiles;
  loads = t.loads;
  passed = t.passed;
}

Reach-Tiling :
    (s : BinaryGraphStreamMt) (n : ℕ) (w : World) → MayStart s n → Reach s n w → Tiling s n w
Reach-Tiling s n w m Reach.start = start-Tiling s n m
Reach-Tiling s n w m (Reach.later {w = v} i h lt step) =
    step-Tiling s n v w i m (Reach-Tiling s n v m h) lt step
Reach-Tiling s n w m (Reach.ask {w = v} h) = ask-Tiling s n v (Reach-Tiling s n v m h)

-- On a stream whose offset is not behind its query or its end, whose query lies in the file or is
-- not set, and whose sums of the end of the file and the buffers of all threads fit 64 bits: the
-- chunks that the threads have read or will read after their `fetch_add`, in some order, fill the
-- bytes from where the threads started to `stream_off`, and end at the query or at the end of the
-- file where `stream_off` is behind it. They are disjoint, and no byte is left out, whatever the
-- order in which the threads run and whenever a query on demand blocks them.
pub Reach-Tiles :
    (s : BinaryGraphStreamMt) (n : ℕ) (w : World)
    → MayStart s n
    → Reach s n w
    → (claims : List Chunk) × Permᴰ claims (w.reads ++ pendings s w.pcs)
      × Tiles s.stream_off claims (min w.stream.stream_off (min s.query_index s.end_of_file))
Reach-Tiles s n w m h =
    let t = Reach-Tiling s n w m h in
    (
      t.claims,
      t.perm,
      subst (λ o. Tiles s.stream_off t.claims (min o (limit s)))
          (sym (ap (λ st. st.stream_off) t.same)) t.tiles,
    )
