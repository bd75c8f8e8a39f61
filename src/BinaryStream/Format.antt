-- ===== src/BinaryStream/Format.antt =====
-- The bytes of updates, and reading them back.
use anon_graphzeppelin.Base.{
  ℕ, ◌*◌, ◌^◌, ◌<◌, ◌≤◌, ◌≡◌, refl, sym, ap, ◌∙◌, List, [], ◌∷◌, ◌++◌, some, length, take, drop,
  arith, length-append, drop-length_append, take-length_append, length-take, take-append-drop,
}
use anon_graphzeppelin.Types.{GraphUpdate, update_type}
use anon_graphzeppelin.Stream.{write_uint, ◌>>=◌, read_uint-write_uint, length-write_uint}
use anon_graphzeppelin.BinaryStream.{type_code, write_update, write_updates, read_update}
use mathlib.Core.List.{append_assoc}

-- An update that 9 bytes hold.
pub record IsUpdate (u : GraphUpdate) : Type 0 where
  pub src_lt : u.edge.src < 256 ^ 4
  pub dst_lt : u.edge.dst < 256 ^ 4
  pub code_lt : type_code u.type < 256 ^ 1
  pub type_back : update_type (type_code u.type) ≡ u.type

abbrev pub AreUpdates : List GraphUpdate → Type 0
AreUpdates [] = Unit {0}
AreUpdates (u ∷ us) = IsUpdate u × AreUpdates us

pub read_update-write_update :
    (u : GraphUpdate) (rest : List ℕ)
    → IsUpdate u
    → read_update (write_update u ++ rest) ≡ some (u, rest)
unfolding read_update write_update
read_update-write_update u rest h =
    rw
      (
        append_assoc,
        append_assoc,
        ◌>>=◌,
        read_uint-write_uint 1 (type_code u.type) _ h.code_lt,
        read_uint-write_uint 4 u.edge.src _ h.src_lt,
        read_uint-write_uint 4 u.edge.dst rest h.dst_lt,
        h.type_back,
      )
      refl

pub length-write_update : (u : GraphUpdate) → length (write_update u) ≡ 9
unfolding write_update
length-write_update u = omega (
  arith,
  length-append (write_uint 1 (type_code u.type))
      (write_uint 4 u.edge.src ++ write_uint 4 u.edge.dst),
  length-append (write_uint 4 u.edge.src) (write_uint 4 u.edge.dst),
  length-write_uint 1 (type_code u.type),
  length-write_uint 4 u.edge.src,
  length-write_uint 4 u.edge.dst,
)

pub length-write_updates : (us : List GraphUpdate) → length (write_updates us) ≡ length us * 9
unfolding write_updates
length-write_updates [] = omega arith
length-write_updates (u ∷ us) = omega (
  arith,
  length-append (write_update u) (write_updates us),
  length-write_update u,
  length-write_updates us,
)

write_updates-append :
    (us vs : List GraphUpdate) → write_updates (us ++ vs) ≡ write_updates us ++ write_updates vs
unfolding write_updates
write_updates-append [] vs = refl
write_updates-append (u ∷ us) vs = rw (append_assoc, write_updates-append us vs) refl

-- The bytes of the first `k` updates.
pub take-write_updates :
    (k : ℕ) (us : List GraphUpdate)
    → k ≤ length us
    → (take (k * 9) (write_updates us) ≡ write_updates (take k us))
      × (drop (k * 9) (write_updates us) ≡ write_updates (drop k us))
take-write_updates k us h =
    let e =
      ap write_updates (sym (take-append-drop k us))
      ∙ write_updates-append (take k us) (drop k us) in
    let l = length-write_updates (take k us) ∙ ap (λ i. i * 9) (length-take k us h) in
    (
      ap (take (k * 9)) e
          ∙ ap (λ i. take i (write_updates (take k us) ++ write_updates (drop k us))) (sym l)
          ∙ take-length_append (write_updates (take k us)) (write_updates (drop k us)),
      ap (drop (k * 9)) e
          ∙ ap (λ i. drop i (write_updates (take k us) ++ write_updates (drop k us))) (sym l)
          ∙ drop-length_append (write_updates (take k us)) (write_updates (drop k us)),
    )
