-- ===== src/Lease/Overlap.antt =====
-- Two roots overlap exactly when some path lies under both.
use my_coding_agent.Base.{
  ◌≡◌, refl, sym, ◌∙◌, true, ◌↔◌, inl, inr, [], ◌∷◌, ◌++◌, arith, append-nil, eq_iff, Bool-cases,
}
use my_coding_agent.Lease.{FilePath, path_eq, is_parent, overlaps}

-- `q` lies in the tree of root `p`.
abbrev pub Under : FilePath → FilePath → Type 0
Under p q = (rest : FilePath) × (q ≡ p ++ rest)

pub path_eq→eq : (p q : FilePath) → path_eq p q ≡ true → p ≡ q
unfolding path_eq
path_eq→eq [] [] h = refl
path_eq→eq [] (y ∷ q) h = cc
path_eq→eq (x ∷ p) [] h = cc
path_eq→eq (x ∷ p) (y ∷ q) h = ground (arith, eq_iff x y, path_eq→eq p q)

is_parent-Under : (p q : FilePath) → is_parent p q ≡ true → Under p q
unfolding is_parent
is_parent-Under p [] h = cc
is_parent-Under [] (y ∷ q) h = (y ∷ q, refl)
is_parent-Under (x ∷ p) (y ∷ q) h =
    let (rest, e) = is_parent-Under p q (ground arith) in (rest, ground (arith, eq_iff x y))

-- What lies under two roots, step by step.
common-overlaps : (p q r s : FilePath) → p ++ r ≡ q ++ s → overlaps p q ≡ true
unfolding overlaps
common-overlaps [] [] r s e = refl
common-overlaps [] (y ∷ q) r s e = refl
common-overlaps (x ∷ p) [] r s e = refl
common-overlaps (x ∷ p) (y ∷ q) r s e =
    ground (arith, eq_iff x y, eq_iff y x, common-overlaps p q r s)

overlaps-common : (p q : FilePath) → overlaps p q ≡ true → (t : FilePath) × Under p t × Under q t
unfolding overlaps
overlaps-common p q h = elim (Bool-cases (path_eq p q)) [
  | inl same ↦ (p, ([], sym (append-nil p)), ([], path_eq→eq p q same ∙ sym (append-nil q)))
  | inr other ↦ elim (Bool-cases (is_parent p q)) [
    | inl above ↦ (q, is_parent-Under p q above, ([], sym (append-nil q)))
    | inr not_above ↦ (p, ([], sym (append-nil p)), is_parent-Under q p (ground arith))
  ]
]

-- The test for an overlap of two roots passes exactly when some path lies under both of them.
pub overlaps_iff :
    (p q : FilePath) → (overlaps p q ≡ true) ↔ ((t : FilePath) × Under p t × Under q t)
overlaps_iff p q = (overlaps-common p q, λ (t, (r, e), (s, f)). common-overlaps p q r s (sym e ∙ f))

pub overlaps_symm : (p q : FilePath) → overlaps p q ≡ true → overlaps q p ≡ true
overlaps_symm p q h = let (t, u, v) = overlaps-common p q h in (overlaps_iff q p).1 (t, v, u)
