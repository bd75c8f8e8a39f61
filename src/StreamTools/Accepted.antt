-- ===== src/StreamTools/Accepted.antt =====
-- What the one tool writes the other accepts.
use anon_graphzeppelin.Base.{
  ℕ, suc, ◌-◌, ◌*◌, ◌%◌, ◌^◌, ◌<◌, ◌≡◌, ◌≢◌, refl, sym, ap, ap₂, subst, ◌∙◌, min, max, Bool, true,
  false, ◌||◌, List, [], ◌∷◌, ◌++◌, map, some, length, if◌then◌else◌, ok, arith,
}
use anon_graphzeppelin.Types.{UpdateType, Edge, GraphUpdate, update_type}
use anon_graphzeppelin.Stream.{write_uint}
use anon_graphzeppelin.BinaryStream.{type_code, write_updates}
use anon_graphzeppelin.BinaryStream.Format.{AreUpdates}
use anon_graphzeppelin.BinaryStream.Calls.{fresh}
use anon_graphzeppelin.StreamTools.{is_update_type, bad_update, to_binary_format, validate}
use anon_graphzeppelin.StreamTools.Convert.{
  Present, toggle, Alternates, InGraph, correct_all-Alternates,
}
use anon_graphzeppelin.StreamTools.Validate.{any_bad, validate-any_bad}

abbrev pub NoLoops : List Edge → Type 0
NoLoops [] = Unit {0}
NoLoops (e ∷ es) = (e.src ≢ e.dst) × NoLoops es

-- An insertion or a deletion.
IsChange : UpdateType → Type 0
IsChange t = (type_code t < 256) × (update_type (type_code t) ≡ t) × (is_update_type t ≡ true)

IsChange-if : (b : Bool) → IsChange (if b then UpdateType.delete else UpdateType.insert)
unfolding IsChange type_code update_type is_update_type
IsChange-if true = (omega arith, refl, refl)
IsChange-if false = (omega arith, refl, refl)

good_update :
    (n : ℕ) (u : GraphUpdate)
    → u.edge.src < n
    → u.edge.dst < n
    → u.edge.src ≢ u.edge.dst
    → is_update_type u.type ≡ true
    → bad_update n u ≡ false
unfolding bad_update
good_update n u s d ne t = rw (t) (ground arith)

Alternates-AreUpdates :
    (n : ℕ) (f : Present) (us : List GraphUpdate)
    → n < 2 ^ 32
    → InGraph n (map (λ u. u.edge) us)
    → NoLoops (map (λ u. u.edge) us)
    → Alternates f us
    → AreUpdates us × (any_bad n us ≡ false)
unfolding IsChange
Alternates-AreUpdates n f [] hn h l a = (_, refl)
Alternates-AreUpdates n f (u ∷ us) hn (s, d, h) (ne, l) (t, a) =
    let (small, back, change) =
      subst IsChange (sym t)
        (IsChange-if (f (min u.edge.src u.edge.dst) (max u.edge.src u.edge.dst))) in
    let (rest, none_bad) =
      Alternates-AreUpdates n (toggle f (min u.edge.src u.edge.dst) (max u.edge.src u.edge.dst)) us
        hn h l a in
    (
      (
        record {
          src_lt = omega (arith, hn, s);
          dst_lt = omega (arith, hn, d);
          code_lt = omega (arith, small);
          type_back = back;
        },
        rest,
      ),
      ap₂ (λ b c. b || c) (good_update n u s d ne change) none_bad,
    )

length-edges : (us : List GraphUpdate) → length (map (λ u. u.edge) us) ≡ length us
length-edges [] = refl
length-edges (u ∷ us) = ap suc (length-edges us)

-- Of a text whose edges join two different nodes below its number of nodes, where that number
-- fits 32 bits and the number of edges 64, the conversion writes a file, and the validation reads
-- that file to its end and finds no error.
pub validate-to_binary_format :
    (n : ℕ) (es : List Edge) (nodes edges heap : List ℕ)
    → InGraph n es
    → NoLoops es
    → n < 2 ^ 32
    → length es < 2 ^ 64
    → length heap ≡ 1024 * 1024 - 1024 * 1024 % 9
    → (bytes : List ℕ) × (to_binary_format n es ≡ some bytes)
      × (validate (some (fresh bytes)) nodes edges heap ≡ some (ok false))
unfolding to_binary_format
validate-to_binary_format n es nodes edges heap h l hn hl hh =
    let (us, written, same, alternates) = correct_all-Alternates n es h in
    let (are, fine) =
      Alternates-AreUpdates n (λ i j. false) us hn (subst (InGraph n) (sym same) h)
        (subst NoLoops (sym same) l) alternates in
    let many : length es ≡ length us = sym (ap length same) ∙ length-edges us in
    (
      write_uint 4 n ++ (write_uint 8 (length us) ++ write_updates us),
      rw (written, many) refl,
      validate-any_bad us n nodes edges heap are hn (omega (arith, hl, many)) hh
          ∙ ap (λ b. some (ok b)) fine,
    )
