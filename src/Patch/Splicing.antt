-- ===== src/Patch/Splicing.antt =====
-- What a hunk that applies does to the lines (agent/tools/apply_patch.py, `_apply_hunks`).
use my_coding_agent.Base.{
  ℕ, zero, suc, ◌+◌, ◌-◌, ◌≤◌, ◌<◌, String, true, false, Option, none, some, List, [], ◌∷◌, ◌++◌,
  ◌≡◌, refl, sym, ap, ◌∙◌, arith, All, length, take, drop, length-append, take-append-drop, str_eq,
  eq_iff, eq_refl, subst, Bool-cases, inl, inr, is_empty, any, ◌==◌,
}
use my_coding_agent.Patch.{PatchHunk, pattern_of, replacement_of}
use my_coding_agent.Patch.Hunks.{
  lines_eq, matches, matches_from, Editing, candidates, splice, spliced, apply_hunk, numbered,
  searched,
}

lines_eq→eq : (xs ys : List String) → lines_eq xs ys ≡ true → xs ≡ ys
lines_eq→eq [] [] h = refl
lines_eq→eq [] (y ∷ ys) h = cc
lines_eq→eq (x ∷ xs) [] h = cc
lines_eq→eq (x ∷ xs) (y ∷ ys) h =
    let first : str_eq x y ≡ true = ground arith in
    let rest : lines_eq xs ys ≡ true = ground arith in
    rw ((eq_iff x y).0 first, lines_eq→eq xs ys rest) refl

lines_eq_refl : (xs : List String) → lines_eq xs xs ≡ true
lines_eq_refl [] = refl
lines_eq_refl (x ∷ xs) = rw (eq_refl x, lines_eq_refl xs) refl

module _ {ℓ} {A : Type ℓ} where
  drop-drop : (n p : ℕ) (xs : List A) → drop n (drop p xs) ≡ drop (p + n) xs
  drop-drop n zero xs = let e : n ≡ 0 + n = omega arith in ap (λ k. drop k xs) e
  drop-drop zero (suc p) [] = let e : suc p ≡ suc p + 0 = omega arith in ap (λ k. drop k []) e
  drop-drop (suc n) (suc p) [] =
      let e : suc (suc p + n) ≡ suc p + suc n = omega arith in ap (λ k. drop k []) e
  drop-drop n (suc p) (x ∷ xs) =
      let e : suc (p + n) ≡ suc p + n = omega arith in
      drop-drop n p xs ∙ ap (λ k. drop k (x ∷ xs)) e

  drop-append : (xs ys : List A) → drop (length xs) (xs ++ ys) ≡ ys
  drop-append [] ys = refl
  drop-append (x ∷ xs) ys = drop-append xs ys

  take-append : (xs ys : List A) → take (length xs) (xs ++ ys) ≡ xs
  take-append [] ys = refl
  take-append (x ∷ xs) ys = ap (λ zs. x ∷ zs) (take-append xs ys)

-- Where a pattern matches, the lines are cut there.
matches-cut :
    (lines pattern : List String) (p : ℕ)
    → matches lines p pattern ≡ true
    → lines ≡ take p lines ++ (pattern ++ drop (p + length pattern) lines)
matches-cut lines pattern p h =
    let here : take (length pattern) (drop p lines) ≡ pattern = lines_eq→eq _ pattern h in
    let rest : drop p lines ≡ pattern ++ drop (p + length pattern) lines =
      sym (take-append-drop (length pattern) (drop p lines))
      ∙ ap (λ xs. xs ++ drop (length pattern) (drop p lines)) here
      ∙ ap (λ xs. pattern ++ xs) (drop-drop (length pattern) p lines) in
    sym (take-append-drop p lines) ∙ ap (λ xs. take p lines ++ xs) rest

cut-matches :
    (before pattern after : List String)
    → matches (before ++ (pattern ++ after)) (length before) pattern ≡ true
cut-matches before pattern after =
    rw (drop-append before (pattern ++ after), take-append pattern after) (lines_eq_refl pattern)

All-matches_from :
    (lines pattern : List String) (p n : ℕ)
    → All (λ q. matches lines q pattern ≡ true) (matches_from lines pattern p n)
All-matches_from lines pattern p zero = tt
All-matches_from lines pattern p (suc n) = elim (Bool-cases (matches lines p pattern)) [
  | inl here ↦ rw here (here, All-matches_from lines pattern (suc p) n)
  | inr there ↦ rw there (All-matches_from lines pattern (suc p) n)
]

-- Every position in the range at which the pattern matches is found.
matches_from_complete :
    (lines pattern : List String) (q p n : ℕ)
    → matches lines q pattern ≡ true
    → p ≤ q
    → q < p + n
    → any (λ k. k == q) (matches_from lines pattern p n) ≡ true
matches_from_complete lines pattern q p zero h lo hi = ground arith
matches_from_complete lines pattern q p (suc n) h lo hi = elim (Bool-cases (p == q)) [
  | inl here ↦ let e : p ≡ q = ground arith in rw (rw (sym e) at h) (rw here refl)
  | inr there ↦
      let apart : suc p ≤ q = ground arith in
      let later : any (λ k. k == q) (matches_from lines pattern (suc p) n) ≡ true =
        matches_from_complete lines pattern q (suc p) n h apart (omega arith) in
      elim (Bool-cases (matches lines p pattern)) [
        | inl hit ↦ rw (hit, there) later
        | inr miss ↦ rw miss later
      ]
]

All-numbered :
    (start : ℕ) (h : PatchHunk) (e : Editing)
    → All (λ p. matches e.lines p (pattern_of h) ≡ true) (numbered start h e)
All-numbered start h e =
    let candidate = (start + e.added) - (1 + e.removed) in
    elim (Bool-cases (matches e.lines candidate (pattern_of h))) [
      | inl hit ↦ rw hit (hit, tt)
      | inr miss ↦ rw miss tt
    ]

All-searched :
    (lines pattern : List String)
    → All (λ p. matches lines p pattern ≡ true) (searched lines pattern)
All-searched lines [] = (refl, tt)
All-searched lines (p ∷ ps) = All-matches_from lines (p ∷ ps) 0 _

candidates_of : Option ℕ → PatchHunk → Editing → List ℕ
candidates_of (some start) h e = numbered start h e
candidates_of none h e = searched e.lines (pattern_of h)

All-candidates_of :
    (o : Option ℕ) (h : PatchHunk) (e : Editing)
    → All (λ p. matches e.lines p (pattern_of h) ≡ true) (candidates_of o h e)
unfolding candidates_of
All-candidates_of (some start) h e = All-numbered start h e
All-candidates_of none h e = All-searched e.lines (pattern_of h)

candidates_lem : (h : PatchHunk) (e : Editing) → candidates h e ≡ candidates_of h.old_start h e
unfolding candidates_of
candidates_lem h e = ground arith

spliced_lem :
    (ps : List ℕ) (h : PatchHunk) (e e' : Editing)
    → spliced ps h e ≡ some e'
    → (p : ℕ) × (ps ≡ p ∷ []) × (splice p h e ≡ e')
spliced_lem [] h e e' k = cc
spliced_lem (p ∷ []) h e e' k = (p, refl, cc)
spliced_lem (p ∷ q ∷ ps) h e e' k = cc

splice-lines :
    (p : ℕ) (h : PatchHunk) (e : Editing)
    → (splice p h e).lines
      ≡ take p e.lines ++ (replacement_of h ++ drop (p + length (pattern_of h)) e.lines)
splice-lines p h e = ground arith

-- A hunk that applies puts its new lines in the place of its old ones and keeps what stands before
-- and after them.
pub apply_hunk-Splices :
    (h : PatchHunk) (e e' : Editing)
    → apply_hunk h e ≡ some e'
    → (before : List String) × (after : List String) × (e.lines ≡ before ++ (pattern_of h ++ after))
      × (e'.lines ≡ before ++ (replacement_of h ++ after))
unfolding apply_hunk
apply_hunk-Splices h e e' k =
    let (p, one, same) = spliced_lem (candidates h e) h e e' k in
    let found =
      subst (All (λ q. matches e.lines q (pattern_of h) ≡ true)) (sym (candidates_lem h e) ∙ one)
        (All-candidates_of h.old_start h e) in
    (
      take p e.lines,
      drop (p + length (pattern_of h)) e.lines,
      matches-cut e.lines (pattern_of h) p found.0,
      ap (λ (s : Editing). s.lines) (sym same) ∙ splice-lines p h e,
    )

-- Wherever the lines have the pattern, the search finds it.
searched_complete :
    (lines pattern before after : List String)
    → is_empty pattern ≡ false
    → lines ≡ before ++ (pattern ++ after)
    → any (λ k. k == length before) (searched lines pattern) ≡ true
searched_complete lines [] before after h e = cc
searched_complete lines (p ∷ ps) before after h e =
    let pattern = p ∷ ps in
    let size : length lines ≡ length before + (length pattern + length after) =
      ap length e
      ∙ length-append before (pattern ++ after)
      ∙ ap (λ n. length before + n) (length-append pattern after) in
    matches_from_complete lines pattern (length before) 0 (suc (length lines) - length pattern)
      (rw e (cut-matches before pattern after)) (omega arith) (omega (arith, size))

only_one : (p q : ℕ) → any (λ k. k == q) (p ∷ []) ≡ true → p ≡ q
only_one p q h = ground arith

-- A cut of the lines is determined by its position.
cut_lem :
    (lines before pattern after : List String) (p : ℕ)
    → p ≡ length before
    → lines ≡ before ++ (pattern ++ after)
    → (before ≡ take p lines) × (after ≡ drop (p + length pattern) lines)
cut_lem lines before pattern after p e f = (
  sym (take-append before (pattern ++ after)) ∙ rw (e, f) refl,
  sym (drop-append pattern after)
      ∙ ap (drop (length pattern)) (sym (drop-append before (pattern ++ after)))
      ∙ drop-drop (length pattern) (length before) (before ++ (pattern ++ after))
      ∙ rw (e, f) refl,
)

-- A hunk without a line number that applies, and whose old lines are not empty, has its old lines
-- at one place only.
pub apply_hunk_once :
    (h : PatchHunk) (e e' : Editing) (before after before' after' : List String)
    → apply_hunk h e ≡ some e'
    → h.old_start ≡ none
    → is_empty (pattern_of h) ≡ false
    → e.lines ≡ before ++ (pattern_of h ++ after)
    → e.lines ≡ before' ++ (pattern_of h ++ after')
    → (before ≡ before') × (after ≡ after')
unfolding apply_hunk candidates_of
apply_hunk_once h e e' before after before' after' k unnumbered some_pattern f g =
    let (p, one, same) = spliced_lem (candidates h e) h e e' k in
    let found : searched e.lines (pattern_of h) ≡ p ∷ [] =
      sym (ap (λ o. candidates_of o h e) unnumbered) ∙ sym (candidates_lem h e) ∙ one in
    let at = λ (b a : List String) (i : e.lines ≡ b ++ (pattern_of h ++ a)).
      cut_lem e.lines b (pattern_of h) a p
        (only_one p (length b) (
          subst (λ ps. any (λ k. k == length b) ps ≡ true) found
            (searched_complete e.lines (pattern_of h) b a some_pattern i)))
        i in
    let (first, rest) = at before after f in
    let (first', rest') = at before' after' g in (first ∙ sym first', rest ∙ sym rest')
