-- ===== src/BinaryStream/Threads/Moves.antt =====
-- What the threads that share a stream keep, and the moves that leave `stream_off` or set it back.
use anon_graphzeppelin.Base.{
  ℕ, ◌+◌, ◌*◌, ◌≤◌, ◌<◌, ◌≡◌, refl, sym, ap, subst, ◌∙◌, min, ◌⊎◌, inl, inr, Bool, List, [], ◌∷◌,
  ◌++◌, length, get_or, set, replicate, arith, length-set, length-replicate,
}
use anon_graphzeppelin.BinaryStream.Shared.{BinaryGraphStreamMt, no_query, stop_at_query}
use anon_graphzeppelin.BinaryStream.Threads.{Pc, Chunk, World}
use anon_graphzeppelin.BinaryStream.Threads.Pending.{
  pending, pendings, pendings-set, pendings-replicate, weight, load, load-set, load-le,
  load-replicate, All, All-set, All-get, All-impl, All-replicate,
}
use mathlib.Core.List.{Permᴰ}
use mathlib.Core.List.Permᴰ

-- The chunks, the last one first, lie one behind the other and fill the bytes from `a` to `b`.
abbrev pub Tiles : ℕ → List Chunk → ℕ → Type 0
Tiles a [] b = a ≡ b
Tiles a (c ∷ cs) b = (0 < c.size) × (c.start + c.size ≡ b) × Tiles a cs c.start

abbrev pub limit : BinaryGraphStreamMt → ℕ
limit s = min s.query_index s.end_of_file

-- A stream on which `n` threads may start: the query is in the file, or there is none, and no sum
-- of an offset and the buffers of all threads passes 64 bits.
pub record MayStart (s : BinaryGraphStreamMt) (n : ℕ) : Type 0 where
  pub buf_gt : 0 < s.buf_size
  pub before : s.stream_off ≤ limit s
  pub query_ok : (s.query_index ≤ s.end_of_file) ⊎ (s.query_index ≡ no_query)
  pub small : s.end_of_file + n * s.buf_size < no_query

-- What a fetched offset has left behind: `stream_off` is behind its chunk.
abbrev pub Passed : BinaryGraphStreamMt → ℕ → ℕ → Pc → Type 0
Passed s n off (Pc.fetched r) =
    (min (r + s.buf_size) (limit s) ≤ off) × (r + s.buf_size ≤ s.end_of_file + n * s.buf_size)
Passed s n off Pc.idle = Unit {0}
Passed s n off Pc.in_file = Unit {0}
Passed s n off Pc.checked = Unit {0}

-- The stream with the two variables that the threads change.
abbrev pub at : BinaryGraphStreamMt → ℕ → Bool → BinaryGraphStreamMt
at s off blocked = record s { stream_off = off; query_block = blocked }

pub record Tiling (s : BinaryGraphStreamMt) (n : ℕ) (w : World) : Type 0 where
  pub off : ℕ
  pub ask : Bool
  pub claims : List Chunk
  pub same : w.stream ≡ at s off ask
  pub count : length w.pcs ≡ n
  pub perm : Permᴰ claims (w.reads ++ pendings s w.pcs)
  pub tiles : Tiles s.stream_off claims (min off (limit s))
  pub loads : off + load s.buf_size w.pcs ≤ s.end_of_file + n * s.buf_size
  pub passed : All (Passed s n off) w.pcs

pub start-Tiling :
    (s : BinaryGraphStreamMt) (n : ℕ)
    → MayStart s n
    → Tiling s n (record { stream = s; pcs = replicate n Pc.idle; reads = [] })
start-Tiling s n m = record {
  off = s.stream_off;
  ask = s.query_block;
  claims = [];
  same = refl;
  count = length-replicate n Pc.idle;
  perm = subst (Permᴰ []) (sym (pendings-replicate s n)) Permᴰ.nil;
  tiles = omega (arith, m.before);
  loads = omega (arith, m.before, load-replicate s.buf_size n);
  passed = All-replicate (Passed s n s.stream_off) n _;
}

-- What the threads have left behind stays so.
pub Passed-mono :
    (s : BinaryGraphStreamMt) (n off off' : ℕ)
    → min off (limit s) ≤ off'
    → (p : Pc) → Passed s n off p
    → Passed s n off' p
Passed-mono s n off off' h Pc.idle k = k
Passed-mono s n off off' h Pc.in_file k = k
Passed-mono s n off off' h Pc.checked k = k
Passed-mono s n off off' h (Pc.fetched r) k = (omega (arith, k.0), k.1)

-- After a move to `p`, with the same claims.
pub moved_to :
    (s : BinaryGraphStreamMt) (n : ℕ) (w : World) (i : ℕ) (p : Pc) (t : Tiling s n w)
    (st : BinaryGraphStreamMt) (off' : ℕ) (reads' : List Chunk)
    → st ≡ at s off' t.ask
    → Permᴰ t.claims (reads' ++ pendings s (set w.pcs i p))
    → min off' (limit s) ≡ min t.off (limit s)
    → off' + load s.buf_size (set w.pcs i p) ≤ s.end_of_file + n * s.buf_size
    → Passed s n off' p
    → Tiling s n (record { stream = st; pcs = set w.pcs i p; reads = reads' })
moved_to s n w i p t st off' reads' same' perm' lim loads' ok = record {
  off = off';
  ask = t.ask;
  claims = t.claims;
  same = same';
  count = length-set w.pcs i p ∙ t.count;
  perm = perm';
  tiles = subst (Tiles s.stream_off t.claims) (sym lim) t.tiles;
  loads = loads';
  passed =
      All-set (Passed s n off') w.pcs i p
        (All-impl (Passed s n t.off) (Passed s n off') w.pcs
          (Passed-mono s n t.off off' (omega (arith, lim))) t.passed)
        ok;
}

-- The chunks before a move and after it.
pub pendings-move :
    (s : BinaryGraphStreamMt) (w : World) (i : ℕ) (p : Pc) (xs ys : List Chunk)
    → i < length w.pcs
    → pending s (get_or w.pcs i Pc.idle) ≡ xs
    → pending s p ≡ ys
    → Permᴰ (xs ++ pendings s (set w.pcs i p)) (ys ++ pendings s w.pcs)
pendings-move s w i p xs ys lt e e' =
    subst (λ l. Permᴰ (l ++ pendings s (set w.pcs i p)) (ys ++ pendings s w.pcs)) e
      (subst
        (λ l.
          Permᴰ (pending s (get_or w.pcs i Pc.idle) ++ pendings s (set w.pcs i p))
            (l ++ pendings s w.pcs))
        e' (pendings-set s w.pcs i p lt))

pub full_load :
    (s : BinaryGraphStreamMt) (n : ℕ) (w : World) (i : ℕ) (p : Pc)
    → Tiling s n w
    → load s.buf_size (set w.pcs i p) ≤ n * s.buf_size
full_load s n w i p t =
    subst (λ k. load s.buf_size (set w.pcs i p) ≤ k * s.buf_size) (length-set w.pcs i p ∙ t.count)
      (load-le s.buf_size (set w.pcs i p))

-- A move that reads nothing and leaves the stream as it is.
pub quiet :
    (s : BinaryGraphStreamMt) (n : ℕ) (w : World) (i : ℕ) (p : Pc) (t : Tiling s n w)
    → i < length w.pcs
    → pending s (get_or w.pcs i Pc.idle) ≡ []
    → pending s p ≡ []
    → (weight s.buf_size p ≤ weight s.buf_size (get_or w.pcs i Pc.idle)) ⊎ (t.off < s.end_of_file)
    → Passed s n t.off p
    → Tiling s n (record w { pcs = set w.pcs i p })
quiet s n w i p t lt none_before none_after light ok =
    moved_to s n w i p t w.stream t.off w.reads t.same
      (Permᴰ.trans t.perm (
        Permᴰ.append_left w.reads
          (Permᴰ.symm (pendings-move s w i p [] [] lt none_before none_after))))
      refl
      (elim light [
        | inl le ↦ omega (arith, t.loads, load-set s.buf_size w.pcs i p lt)
        | inr before ↦ omega (arith, full_load s n w i p t)
      ])
      ok

-- `stream_off` goes back to the query, which is behind all bytes that were asked for.
pub stop :
    (s : BinaryGraphStreamMt) (n : ℕ) (w : World) (i r : ℕ) (t : Tiling s n w) (reads' : List Chunk)
    → MayStart s n
    → get_or w.pcs i Pc.idle ≡ Pc.fetched r
    → s.query_index < r + s.buf_size
    → Permᴰ t.claims (reads' ++ pendings s (set w.pcs i Pc.idle))
    → Tiling s n
        (record { stream = stop_at_query w.stream; pcs = set w.pcs i Pc.idle; reads = reads' })
unfolding stop_at_query
stop s n w i r t reads' m e reached perm' =
    let past : Passed s n t.off (Pc.fetched r) =
      subst (Passed s n t.off) e (All-get (Passed s n t.off) w.pcs i _ t.passed) in
    let in_file : s.query_index ≤ s.end_of_file = elim m.query_ok [
      | inl le ↦ le
      | inr none_set ↦ absurd (omega (arith, none_set, m.small, past.1, reached))
    ] in
    moved_to s n w i Pc.idle t (stop_at_query w.stream) s.query_index reads'
      (ap stop_at_query t.same) perm' (omega (arith, past.0, reached))
      (omega (arith, in_file, full_load s n w i Pc.idle t)) _
