-- ===== src/BinaryStream/Threads/Pending.antt =====
-- The chunks that the threads will still read, and the bytes that they may still fetch.
use anon_graphzeppelin.Base.{
  ℕ, zero, suc, ◌+◌, ◌*◌, ◌≤◌, ◌<◌, ◌≡◌, refl, subst, ◌⊎◌, inl, inr, ◌||◌, List, [], ◌∷◌, ◌++◌, leb,
  length, get_or, set, replicate, if◌then◌else◌, arith,
}
use anon_graphzeppelin.BinaryStream.Shared.{BinaryGraphStreamMt}
use anon_graphzeppelin.BinaryStream.Threads.{Pc, Chunk, chunk_of}
use mathlib.Core.List.{Permᴰ, append_assoc}
use mathlib.Core.List.Permᴰ

-- The chunk that a thread will read after its `fetch_add`.
unfoldable pub pending : BinaryGraphStreamMt → Pc → List Chunk
pending s (Pc.fetched r) =
    if leb s.query_index r || leb s.end_of_file r then [] else chunk_of s r ∷ []
pending s Pc.idle = []
pending s Pc.in_file = []
pending s Pc.checked = []

pub pendings : BinaryGraphStreamMt → List Pc → List Chunk
pendings s [] = []
pendings s (p ∷ ps) = pending s p ++ pendings s ps

pub swap_front : {A : Type 0} (xs ys zs : List A) → Permᴰ (xs ++ (ys ++ zs)) (ys ++ (xs ++ zs))
swap_front xs ys zs =
    subst (λ l. Permᴰ l (ys ++ (xs ++ zs))) (append_assoc xs ys zs)
      (subst (Permᴰ ((xs ++ ys) ++ zs)) (append_assoc ys xs zs)
        (Permᴰ.append_right zs (Permᴰ.append_comm xs ys)))

-- A move of one thread.
pub pendings-set :
    (s : BinaryGraphStreamMt) (pcs : List Pc) (i : ℕ) (p : Pc)
    → i < length pcs
    → Permᴰ
        (pending s (get_or pcs i Pc.idle) ++ pendings s (set pcs i p))
        (pending s p ++ pendings s pcs)
unfolding pendings
pendings-set s [] i p h = absurd (omega arith)
pendings-set s (x ∷ pcs) zero p h = swap_front (pending s x) (pending s p) (pendings s pcs)
pendings-set s (x ∷ pcs) (suc i) p h =
    Permᴰ.trans
      (swap_front (pending s (get_or pcs i Pc.idle)) (pending s x) (pendings s (set pcs i p)))
      (Permᴰ.trans (Permᴰ.append_left (pending s x) (pendings-set s pcs i p (omega arith)))
        (swap_front (pending s x) (pending s p) (pendings s pcs)))

pub pendings-replicate : (s : BinaryGraphStreamMt) (n : ℕ) → pendings s (replicate n Pc.idle) ≡ []
unfolding pendings pending
pendings-replicate s zero = refl
pendings-replicate s (suc n) = pendings-replicate s n

-- A thread after its tests may add a buffer to `stream_off`.
unfoldable pub weight : ℕ → Pc → ℕ
weight b Pc.idle = 0
weight b Pc.in_file = b
weight b Pc.checked = b
weight b (Pc.fetched r) = 0

pub load : ℕ → List Pc → ℕ
load b [] = 0
load b (p ∷ ps) = weight b p + load b ps

pub load-set :
    (b : ℕ) (pcs : List Pc) (i : ℕ) (p : Pc)
    → i < length pcs
    → load b (set pcs i p) + weight b (get_or pcs i Pc.idle) ≡ load b pcs + weight b p
unfolding load
load-set b [] i p h = absurd (omega arith)
load-set b (x ∷ pcs) zero p h = omega arith
load-set b (x ∷ pcs) (suc i) p h = omega (arith, load-set b pcs i p (omega arith))

weight-le : (b : ℕ) (p : Pc) → weight b p ≤ b
unfolding weight
weight-le b Pc.idle = omega arith
weight-le b Pc.in_file = omega arith
weight-le b Pc.checked = omega arith
weight-le b (Pc.fetched r) = omega arith

pub load-le : (b : ℕ) (pcs : List Pc) → load b pcs ≤ length pcs * b
unfolding load
load-le b [] = omega arith
load-le b (p ∷ pcs) = omega (arith, load-le b pcs, weight-le b p)

pub load-replicate : (b n : ℕ) → load b (replicate n Pc.idle) ≡ 0
unfolding load weight
load-replicate b zero = refl
load-replicate b (suc n) = omega (arith, load-replicate b n)

-- A predicate on every thread.
abbrev pub All : (Pc → Type 0) → List Pc → Type 0
All P [] = Unit {0}
All P (p ∷ ps) = P p × All P ps

pub All-set :
    (P : Pc → Type 0) (pcs : List Pc) (i : ℕ) (p : Pc) → All P pcs → P p → All P (set pcs i p)
All-set P [] i p h q = h
All-set P (x ∷ pcs) zero p h q = (q, h.1)
All-set P (x ∷ pcs) (suc i) p h q = (h.0, All-set P pcs i p h.1 q)

pub All-get :
    (P : Pc → Type 0) (pcs : List Pc) (i : ℕ) → P Pc.idle → All P pcs → P (get_or pcs i Pc.idle)
All-get P [] i d h = d
All-get P (x ∷ pcs) zero d h = h.0
All-get P (x ∷ pcs) (suc i) d h = All-get P pcs i d h.1

pub All-impl : (P Q : Pc → Type 0) (pcs : List Pc) → ((p : Pc) → P p → Q p) → All P pcs → All Q pcs
All-impl P Q [] f h = h
All-impl P Q (x ∷ pcs) f h = (f x h.0, All-impl P Q pcs f h.1)

pub All-replicate : (P : Pc → Type 0) (n : ℕ) → P Pc.idle → All P (replicate n Pc.idle)
All-replicate P zero d = _
All-replicate P (suc n) d = (d, All-replicate P n d)

-- A call that reads nothing, and one that reads.
pub pending_over :
    (s : BinaryGraphStreamMt) (r : ℕ)
    → (s.query_index ≤ r) ⊎ (s.end_of_file ≤ r)
    → pending s (Pc.fetched r) ≡ []
unfolding pending
pending_over s r (inl h) = ground arith
pending_over s r (inr h) = ground arith

pub pending_under :
    (s : BinaryGraphStreamMt) (r : ℕ)
    → r < s.query_index
    → r < s.end_of_file
    → pending s (Pc.fetched r) ≡ chunk_of s r ∷ []
unfolding pending
pending_under s r h k = ground arith
