-- ===== src/StreamTools/Validate.antt =====
-- What the validation says of a whole file.
use anon_graphzeppelin.Base.{
  ℕ, ◌-◌, ◌*◌, ◌%◌, ◌^◌, ◌<◌, ◌≡◌, ap, ◌∙◌, Bool, false, ◌||◌, List, [], ◌∷◌, ◌++◌, some, length,
  ok, arith,
}
use anon_graphzeppelin.Types.{GraphUpdate}
use anon_graphzeppelin.Stream.{write_uint}
use anon_graphzeppelin.BinaryStream.{write_updates, BinaryGraphStream}
use anon_graphzeppelin.BinaryStream.Format.{AreUpdates}
use anon_graphzeppelin.BinaryStream.Order.{Ahead}
use anon_graphzeppelin.BinaryStream.Calls.{fresh, get_edge-Ahead, open_stream-Ahead}
use anon_graphzeppelin.StreamTools.{bad_update, find_errors, after_open, validate}

-- Whether one of the updates is bad.
abbrev pub any_bad : ℕ → List GraphUpdate → Bool
any_bad n [] = false
any_bad n (u ∷ us) = bad_update n u || any_bad n us

or_assoc : (a b c : Bool) → ((a || b) || c) ≡ (a || (b || c))
or_assoc a b c = ground arith

find_errors-Ahead :
    (s : BinaryGraphStream) (us : List GraphUpdate) (n : ℕ) (err : Bool)
    → AreUpdates us
    → Ahead s us
    → find_errors (length us) n s err ≡ some (ok (err || any_bad n us))
unfolding find_errors
find_errors-Ahead s [] n err hus a = ap (λ b. some (ok b)) (or_false err)
  where
    or_false : (b : Bool) → b ≡ (b || false)
    or_false b = ground arith
find_errors-Ahead s (u ∷ us) n err (hu, hus) a =
    let (t, e, b) = get_edge-Ahead s u us hu a in
    rw (find_errors, e)
      (find_errors-Ahead t us n (err || bad_update n u) hus b
        ∙ ap (λ c. some (ok c)) (or_assoc err (bad_update n u) (any_bad n us)))

-- The validation of a file of a header and its updates, each number of which fits its bytes,
-- reads all of it, throws nothing, and finds an error if and only if one of the updates has a
-- node that is not below the number of nodes of the header, a type other than insertion and
-- deletion, or one node twice.
pub validate-any_bad :
    (us : List GraphUpdate) (n : ℕ) (nodes edges heap : List ℕ)
    → AreUpdates us
    → n < 2 ^ 32
    → length us < 2 ^ 64
    → length heap ≡ 1024 * 1024 - 1024 * 1024 % 9
    → validate
        (some (fresh (write_uint 4 n ++ (write_uint 8 (length us) ++ write_updates us))))
        nodes
        edges
        heap
      ≡ some (ok (any_bad n us))
unfolding validate after_open
validate-any_bad us n nodes edges heap hus hn hl hh =
    let (s, e, same_n, same_l, ahead) =
      open_stream-Ahead us n (1024 * 1024) nodes edges heap hus hn hl (omega arith) hh in
    rw (e) (
      ap (λ k. find_errors k s.num_nodes s false) same_l
      ∙ ap (λ k. find_errors (length us) k s false) same_n
      ∙ find_errors-Ahead s us n false hus ahead)
