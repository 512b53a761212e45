-- ===== src/Patch/Applied.antt =====
-- agent/tools/apply_patch.py: what a patch that is applied has made of the files.
use my_coding_agent.Base.{
  ℕ, suc, String, Bool, true, false, ◌||◌, none, some, List, [], ◌∷◌, ◌≡◌, refl, sym, ap, ◌∙◌,
  arith, All, str_eq, eq_refl, inl, inr, subst, Option-cases,
}
use my_coding_agent.Files.{Paths, Codec, Faults, Disk, ok, changed, resolve}
use my_coding_agent.Patch.{PatchOperation}
use my_coding_agent.Patch.Commit.{
  Lines, Prepared, PatchResult, Outcome, applied, refused, incomplete, Saved, Committed,
  prepare_all, perform, commit, rollback, rolled_back, finished, apply_operations, result_of,
}
use my_coding_agent.Patch.Effects.{
  Change-cases, put_lem, Makes, perform-Puts, perform_frame, IsPrepared, prepare_all-IsPrepared,
}

abbrev pub is_target : String → List Prepared → Bool
is_target q [] = false
is_target q (p ∷ ps) = str_eq p.target q || is_target q ps

-- No two operations have one target.
abbrev pub HasDistinctTargets : List Prepared → Type 0
HasDistinctTargets [] = Unit
HasDistinctTargets (p ∷ ps) = (is_target p.target ps ≡ false) × HasDistinctTargets ps

module _ (paths : Paths) (codec : Codec) (cut : Lines) where
  abbrev pub IsMade : Disk → Prepared → Type 0
  IsMade d p = Makes paths codec cut p.final (d p.target)

  commit_frame :
      (faults : ℕ → Faults) (unlinked : (k : ℕ) (t : String) → (faults k).linked t ≡ false) (n : ℕ)
      (before : Disk) (ps : List Prepared) (d : Disk) (saved : List Saved) (q : String)
      → All (IsPrepared paths codec cut before) ps
      → is_target q ps ≡ false
      → (commit paths codec cut faults n ps d saved).error ≡ none
      → (commit paths codec cut faults n ps d saved).disk q ≡ d q
  unfolding commit
  commit_frame faults unlinked n before [] d saved q h e fine = refl
  commit_frame faults unlinked n before (p ∷ ps) d saved q h e fine =
      let elsewhere : str_eq p.target q ≡ false = ground (arith, e) in
      let later : is_target q ps ≡ false = ground (arith, e) in
      elim (Change-cases (perform paths codec cut (faults n) p d)) [
        | inl (code, left, f) ↦ stopped code (rw (f, commit) at fine)
        | inr (d', f) ↦
            rw (f, commit)
              (commit_frame faults unlinked (suc n) before ps d' ((p.target, p.before) ∷ saved) q
                  h.1 later (rw (f, commit) at fine)
                ∙ perform_frame paths codec cut (faults n) p q d d' (unlinked n p.target)
                    h.0.resolves f elsewhere)
      ]
    where
      stopped :
          (code : String)
          → some code ≡ none
          → (commit paths codec cut faults n (p ∷ ps) d saved).disk q ≡ d q
      stopped code k = cc

  first-IsMade :
      (now : Faults) (p : Prepared) (d d' after : Disk)
      → now.linked p.target ≡ false
      → resolve paths p.operation.path ≡ ok p.target
      → perform paths codec cut now p d ≡ changed d'
      → after p.target ≡ d' p.target
      → IsMade after p
  first-IsMade now p d d' after l e f same =
      let (entry, made, change) = perform-Puts paths codec cut now p d d' l e f in
      let here : after p.target ≡ entry =
        same ∙ put_lem p.target p.target entry d d' change ∙ rw (eq_refl p.target) refl in
      subst (Makes paths codec cut p.final) (sym here) made

  commit_next :
      (faults : ℕ → Faults) (n : ℕ) (p : Prepared) (ps : List Prepared) (d d' : Disk)
      (saved : List Saved)
      → perform paths codec cut (faults n) p d ≡ changed d'
      → commit paths codec cut faults n (p ∷ ps) d saved
        ≡ commit paths codec cut faults (suc n) ps d' ((p.target, p.before) ∷ saved)
  unfolding commit
  commit_next faults n p ps d d' saved f = rw (f, commit) refl

  commit-IsMade :
      (faults : ℕ → Faults) (unlinked : (k : ℕ) (t : String) → (faults k).linked t ≡ false) (n : ℕ)
      (before : Disk) (ps : List Prepared) (d : Disk) (saved : List Saved)
      → All (IsPrepared paths codec cut before) ps
      → HasDistinctTargets ps
      → (commit paths codec cut faults n ps d saved).error ≡ none
      → All (IsMade (commit paths codec cut faults n ps d saved).disk) ps
  unfolding commit
  commit-IsMade faults unlinked n before [] d saved h distinct e = tt
  commit-IsMade faults unlinked n before (p ∷ ps) d saved h distinct e =
      elim (Change-cases (perform paths codec cut (faults n) p d)) [
        | inl (code, left, f) ↦ stopped code (rw (f, commit) at e)
        | inr (d', f) ↦
            let goes_on = commit_next faults n p ps d d' saved f in
            subst (λ (c : Committed). All (IsMade c.disk) (p ∷ ps)) (sym goes_on)
              (
                first-IsMade (faults n) p d d'
                    (commit paths codec cut faults (suc n) ps d'
                      ((p.target, p.before) ∷ saved)).disk
                    (unlinked n p.target) h.0.resolves f
                    (commit_frame faults unlinked (suc n) before ps d'
                      ((p.target, p.before) ∷ saved) p.target h.1 distinct.0
                      (ap (λ (c : Committed). c.error) (sym goes_on) ∙ e)),
                commit-IsMade faults unlinked (suc n) before ps d' ((p.target, p.before) ∷ saved)
                    h.1 distinct.1 (ap (λ (c : Committed). c.error) (sym goes_on) ∙ e),
              )
      ]
    where
      stopped :
          (code : String)
          → some code ≡ none
          → All (IsMade (commit paths codec cut faults n (p ∷ ps) d saved).disk) (p ∷ ps)
      stopped code k = cc

  rolled_back_stops :
      (error : String) (r : PatchResult) (x : Disk × Bool)
      → (rolled_back paths codec cut error x).1 ≡ applied r
      → ◌≡◌ {A = Bool} true false
  rolled_back_stops error r (d, true) h = cc
  rolled_back_stops error r (d, false) h = cc

  finished-applied :
      (back : ℕ → Faults) (os : List PatchOperation) (r : PatchResult) (c : Committed)
      → (finished paths codec cut back os c).1 ≡ applied r
      → (c.error ≡ none) × (r ≡ result_of os) × ((finished paths codec cut back os c).0 ≡ c.disk)
  finished-applied back os r c h = elim (Option-cases c.error) [
    | inl fine ↦ (fine, sym (ap result_in (rw fine at h)), rw fine refl)
    | inr (error, wrong) ↦ cc (
        rolled_back_stops error r (rollback paths codec cut back 0 c.saved c.disk false)
          (rw wrong at h))
  ]
    where
      result_in : Outcome → PatchResult
      result_in (applied x) = x
      result_in (refused _) = r
      result_in incomplete = r

  -- If no file that is written has a second name, the operations are prepared on different
  -- resolved paths and the patch is applied, each added or updated file has its new text, each
  -- deleted one is gone, every other file is as it was, and the result counts the operations.
  pub apply_operations-IsMade :
      (before : Faults) (during back : ℕ → Faults) (os : List PatchOperation) (ps : List Prepared)
      (d : Disk) (r : PatchResult) (q : String)
      → ((k : ℕ) (t : String) → (during k).linked t ≡ false)
      → prepare_all paths codec cut before os d ≡ ok ps
      → HasDistinctTargets ps
      → (apply_operations paths codec cut before during back os d).1 ≡ applied r
      → is_target q ps ≡ false
      → All (IsMade (apply_operations paths codec cut before during back os d).0) ps
        × ((apply_operations paths codec cut before during back os d).0 q ≡ d q)
        × (r ≡ result_of os)
  unfolding apply_operations
  apply_operations-IsMade before during back os ps d r q unlinked e distinct h other =
      let c = commit paths codec cut during 0 ps d [] in
      let all_ready = prepare_all-IsPrepared paths codec cut before os d ps e in
      let (fine, counts, same) = finished-applied back os r c (rw (e, apply_operations) at h) in
      rw (e, apply_operations)
        (
          subst (λ (x : Disk). All (IsMade x) ps) (sym same)
              (commit-IsMade during unlinked 0 d ps d [] all_ready distinct fine),
          ap (λ (x : Disk). x q) same
              ∙ commit_frame during unlinked 0 d ps d [] q all_ready other fine,
          counts,
        )
