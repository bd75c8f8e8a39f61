-- ===== src/Graph/Boruvka/Cut/Families.antt =====
-- The lists that `supernodes_to_merge` keeps of the classes it joins: below each root the roots of
-- before that went into its class.
use anon_graphzeppelin.Base.{
  Distinct, ℕ, ◌<◌, ◌≡◌, ◌≢◌, refl, sym, ap, subst, ◌∙◌, ◌⊎◌, inl, inr, arith, List, [], ◌∷◌, ◌++◌,
  length, get_or, set, length-set, get_or-set_self, get_or-set_ne, ◌==◌, if◌then◌else◌,
}
use mathlib.Core.List.{Memᴰ}
use native.Mathlib.Decide.{ℕ_discrete}
use anon_graphzeppelin.Forest.Link.{join}

-- The classes of `root` are those of `old`, joined: the list of a root names the old roots in its
-- class but itself, and other lists are empty.
pub record Family (n : ℕ) (old root : ℕ → ℕ) (lists : List (List ℕ)) : Type 0 where
  pub size : length lists ≡ n
  pub coarse : (i : ℕ) → i < n → root (old i) ≡ root i
  pub own : (r : ℕ) → r < n → root r ≡ r → old r ≡ r
  pub empty : (b : ℕ) → b < n → root b ≢ b → get_or lists b [] ≡ []
  pub member :
      (r c : ℕ)
      → r < n
      → Memᴰ c (get_or lists r [])
      → (c < n) × (old c ≡ c) × (root c ≡ r) × (c ≢ r)
  pub complete : (c : ℕ) → c < n → old c ≡ c → (c ≡ root c) ⊎ Memᴰ c (get_or lists (root c) [])
  pub distinct : (r : ℕ) → r < n → Distinct (get_or lists r [])

pub Memᴰ-split : {x : ℕ} (xs : List ℕ) {ys : List ℕ} → Memᴰ x (xs ++ ys) → Memᴰ x xs ⊎ Memᴰ x ys
Memᴰ-split [] m = inr m
Memᴰ-split (y ∷ xs) (Memᴰ.head e) = inl (Memᴰ.head e)
Memᴰ-split (y ∷ xs) (Memᴰ.tail m) = elim (Memᴰ-split xs m) [
  | inl l ↦ inl (Memᴰ.tail l)
  | inr r ↦ inr r
]

pub Memᴰ-left : {x : ℕ} (xs ys : List ℕ) → Memᴰ x xs → Memᴰ x (xs ++ ys)
Memᴰ-left [] ys m = elim m [ ]
Memᴰ-left (y ∷ xs) ys (Memᴰ.head e) = Memᴰ.head e
Memᴰ-left (y ∷ xs) ys (Memᴰ.tail m) = Memᴰ.tail (Memᴰ-left xs ys m)

pub Memᴰ-right : {x : ℕ} (xs ys : List ℕ) → Memᴰ x ys → Memᴰ x (xs ++ ys)
Memᴰ-right [] ys m = m
Memᴰ-right (y ∷ xs) ys m = Memᴰ.tail (Memᴰ-right xs ys m)

pub Distinct-append :
    (xs ys : List ℕ)
    → Distinct xs
    → Distinct ys
    → ((x : ℕ) → Memᴰ x xs → Memᴰ x ys → ⊥)
    → Distinct (xs ++ ys)
Distinct-append [] ys d e apart = e
Distinct-append (x ∷ xs) ys d e apart = (
  λ m. elim (Memᴰ-split xs m) [ inl l ↦ d.0 l | inr r ↦ apart x (Memᴰ.head refl) r ],
  Distinct-append xs ys d.1 e (λ y l r. apart y (Memᴰ.tail l) r),
)

module _ (n : ℕ) (old root : ℕ → ℕ) (lists : List (List ℕ)) (f : Family n old root lists) (a b : ℕ)
    (pa : a < n) (pb : b < n) (ra : root a ≡ a) (rb : root b ≡ b) (ne : a ≢ b) where
  abbrev list_a : List ℕ
  list_a = get_or lists a []

  abbrev list_b : List ℕ
  list_b = get_or lists b []

  abbrev pub linked_lists : List (List ℕ)
  linked_lists = set (set lists a (list_a ++ b ∷ list_b)) b []

  at_b : get_or linked_lists b [] ≡ []
  at_b =
      get_or-set_self (set lists a (list_a ++ b ∷ list_b)) b [] []
        (omega (arith, pb, f.size, length-set lists a (list_a ++ b ∷ list_b)))

  at_a : get_or linked_lists a [] ≡ list_a ++ b ∷ list_b
  at_a =
      get_or-set_ne (set lists a (list_a ++ b ∷ list_b)) b a [] [] (λ e. ne (sym e))
      ∙ get_or-set_self lists a (list_a ++ b ∷ list_b) [] (omega (arith, pa, f.size))

  at_other : (r : ℕ) → r ≢ a → r ≢ b → get_or linked_lists r [] ≡ get_or lists r []
  at_other r na nb =
      get_or-set_ne (set lists a (list_a ++ b ∷ list_b)) b r [] [] (λ e. nb (sym e))
      ∙ get_or-set_ne lists a r (list_a ++ b ∷ list_b) [] (λ e. na (sym e))

  -- Two facts of `join`.
  joined : (i : ℕ) → root i ≡ b → join root a b i ≡ a
  joined i e = ground (arith, e)

  kept : (i : ℕ) → root i ≢ b → join root a b i ≡ root i
  kept i e = ground (arith, e)

  fixed : (r : ℕ) → join root a b r ≡ r → (root r ≡ r) × (r ≢ b)
  fixed r e = elim (ℕ_discrete (root r) b) [
    | yes s ↦ absurd (ne (sym ra ∙ ap root (sym (joined r s) ∙ e) ∙ s))
    | no s ↦ let same = sym (kept r s) ∙ e in (same, λ t. s (same ∙ t))
  ]

  member_of_a :
      (c : ℕ)
      → Memᴰ c (list_a ++ b ∷ list_b)
      → (c < n) × (old c ≡ c) × (join root a b c ≡ a) × (c ≢ a)
  member_of_a c m = elim (Memᴰ-split list_a m) [
    | inl l ↦ let (p, o, e, d) = f.member a c pa l in (p, o, kept c (λ s. ne (sym e ∙ s)) ∙ e, d)
    | inr r ↦ elim r [
      | Memᴰ.head s ↦ (
        subst (λ k. k < n) (sym s) pb,
        subst (λ k. old k ≡ k) (sym s) (f.own b pb rb),
        joined c (ap root s ∙ rb),
        λ t. ne (sym t ∙ s),
      )
      | Memᴰ.tail t ↦
          let (p, o, e, d) = f.member b c pb t in
          (p, o, joined c e, λ s. ne (sym ra ∙ ap root (sym s) ∙ e))
    ]
  ]

  list_at :
      (r x : ℕ) {l : List ℕ} → r ≡ x → get_or linked_lists x [] ≡ l → get_or linked_lists r [] ≡ l
  list_at r x s e = ap (λ k. get_or linked_lists k []) s ∙ e

  stays : (c r : ℕ) → r ≢ b → Memᴰ c (get_or lists r []) → Memᴰ c (get_or linked_lists r [])
  stays c r s m = elim (ℕ_discrete r a) [
    | yes t ↦
        subst (Memᴰ c) (sym (list_at r a t at_a))
          (Memᴰ-left list_a (b ∷ list_b) (subst (λ k. Memᴰ c (get_or lists k [])) t m))
    | no t ↦ subst (Memᴰ c) (sym (at_other r t s)) m
  ]

  apart : (x : ℕ) → Memᴰ x list_a → Memᴰ x (b ∷ list_b) → ⊥
  apart x l (Memᴰ.head s) = ne (sym (f.member a x pa l).2 ∙ ap root s ∙ rb)
  apart x l (Memᴰ.tail m) = ne (sym (f.member a x pa l).2 ∙ (f.member b x pb m).2)

  pub Family-link : Family n old (join root a b) linked_lists
  Family-link = record {
    size =
        length-set (set lists a (list_a ++ b ∷ list_b)) b []
        ∙ length-set lists a (list_a ++ b ∷ list_b)
        ∙ f.size;
    coarse = λ i p. ap (λ k. if k == b then a else k) (f.coarse i p);
    own = λ r p e. f.own r p (fixed r e).0;
    empty = λ x p e. elim (ℕ_discrete x b) [
      | yes s ↦ ap (λ k. get_or linked_lists k []) s ∙ at_b
      | no s ↦ elim (ℕ_discrete x a) [
        | yes t ↦
            absurd (e (kept x (λ u. ne (sym ra ∙ ap root (sym t) ∙ u)) ∙ ap root t ∙ ra ∙ sym t))
        | no t ↦ at_other x t s ∙ f.empty x p (λ same. e (kept x (λ u. s (sym same ∙ u)) ∙ same))
      ]
    ];
    member = λ r c p m. elim (ℕ_discrete r b) [
      | yes s ↦ elim (subst (Memᴰ c) (list_at r b s at_b) m) [ ]
      | no s ↦ elim (ℕ_discrete r a) [
        | yes t ↦
            let (q, o, e, d) = member_of_a c (subst (Memᴰ c) (list_at r a t at_a) m) in
            (q, o, e ∙ sym t, λ u. d (u ∙ t))
        | no t ↦
            let (q, o, e, d) = f.member r c p (subst (Memᴰ c) (at_other r t s) m) in
            (q, o, kept c (λ u. s (sym e ∙ u)) ∙ e, d)
      ]
    ];
    complete = λ c p o. elim (ℕ_discrete (root c) b) [
      | yes s ↦ inr (
          subst (λ k. Memᴰ c (get_or linked_lists k [])) (sym (joined c s))
            (subst (Memᴰ c) (sym at_a) (
              Memᴰ-right list_a (b ∷ list_b) (elim (f.complete c p o) [
                | inl e ↦ Memᴰ.head (e ∙ s)
                | inr m ↦ Memᴰ.tail (subst (λ k. Memᴰ c (get_or lists k [])) s m)
              ]))))
      | no s ↦ elim (f.complete c p o) [
        | inl e ↦ inl (e ∙ sym (kept c s))
        | inr m ↦
            inr (
              subst (λ k. Memᴰ c (get_or linked_lists k [])) (sym (kept c s))
                (stays c (root c) s m))
      ]
    ];
    distinct = λ r p. elim (ℕ_discrete r b) [
      | yes s ↦ subst Distinct (sym (list_at r b s at_b)) tt
      | no s ↦ elim (ℕ_discrete r a) [
        | yes t ↦ subst Distinct (sym (list_at r a t at_a)) (
            Distinct-append list_a (b ∷ list_b) (f.distinct a pa)
              ((λ m. (f.member b b pb m).3 refl), f.distinct b pb) apart)
        | no t ↦ subst Distinct (sym (at_other r t s)) (f.distinct r p)
      ]
    ];
  }
