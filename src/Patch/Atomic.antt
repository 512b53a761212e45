-- ===== src/Patch/Atomic.antt =====
-- agent/tools/apply_patch.py: the files after a patch that is refused, while it is prepared or committed.
use my_coding_agent.Base.{
  ℕ, suc, sym, String, Bool, true, false, ◌||◌, Option, List, [], ◌∷◌, ◌≡◌, refl, ap, ◌∙◌, arith,
  All, str_eq, eq_iff, Bool-cases, inl, inr, Option-cases,
}
use my_coding_agent.Files.{
  Paths, Codec, Faults, Disk, ok, changed, FileSnapshot, resolve, restore_snapshot, snapshot_of,
}
use my_coding_agent.Patch.{PatchOperation}
use my_coding_agent.Patch.Commit.{
  Lines, Prepared, refused, Saved, Committed, prepare_all, perform, commit, rollback, rolled_back,
  finished, apply_operations, applying, apply_patch,
}
use my_coding_agent.Patch.Parser.{Parsed, parsed, invalid, unfinished, Spelling, parse_lines}
use my_coding_agent.Patch.Effects.{
  Result-cases, Change-cases, IsPlain, restore_lem, perform_frame, perform_broken, IsPrepared,
  prepare_all-IsPrepared,
}

module _ (paths : Paths) (codec : Codec) (cut : Lines) where
  -- A saved snapshot is of the disk before, and its path resolves to itself.
  abbrev IsSaved : Disk → Saved → Type 0
  IsSaved before (t, s) = (resolve paths t ≡ ok t) × (s ≡ snapshot_of (before t))

  abbrev is_saved : String → List Saved → Bool
  is_saved q [] = false
  is_saved q ((t, s) ∷ saved) = str_eq t q || is_saved q saved

  -- The disks differ at saved paths only.
  abbrev Covers : Disk → List Saved → Disk → Type 0
  Covers before saved d = (q : String) → is_saved q saved ≡ false → d q ≡ before q

  rollback_bad :
      (faults : ℕ → Faults) (n : ℕ) (saved : List Saved) (d : Disk)
      → (rollback paths codec cut faults n saved d true).1 ≡ true
  unfolding rollback
  rollback_bad faults n [] d = refl
  rollback_bad faults n ((t, s) ∷ saved) d =
      elim (Change-cases (restore_snapshot paths codec (faults n) t s d)) [
        | inl (code, left, e) ↦ rw (e, rollback) (rollback_bad faults (suc n) saved left)
        | inr (d', e) ↦ rw (e, rollback) (rollback_bad faults (suc n) saved d')
      ]

  less-Covers :
      (now : Faults) (t : String) (s : FileSnapshot) (before : Disk) (saved : List Saved)
      (d d' : Disk)
      → now.linked t ≡ false
      → IsSaved before (t, s)
      → Covers before ((t, s) ∷ saved) d
      → restore_snapshot paths codec now t s d ≡ changed d'
      → Covers before saved d'
  less-Covers now t s before saved d d' l h c e q f =
      let k = restore_lem paths codec cut now t q (before t) d d' l h.0 (rw h.1 at e) in
      elim (Bool-cases (str_eq t q)) [
        | inl here ↦ k ∙ rw here (ap before ((eq_iff t q).0 here))
        | inr there ↦ k ∙ rw there (c q (rw (there, f) refl))
      ]

  rollback-restores :
      (faults : ℕ → Faults) (unlinked : (k : ℕ) (t : String) → (faults k).linked t ≡ false) (n : ℕ)
      (before : Disk) (saved : List Saved) (d : Disk)
      → All (IsSaved before) saved
      → Covers before saved d
      → (rollback paths codec cut faults n saved d false).1 ≡ false
      → (q : String) → (rollback paths codec cut faults n saved d false).0 q ≡ before q
  unfolding rollback
  rollback-restores faults unlinked n before [] d hs c h q = c q refl
  rollback-restores faults unlinked n before ((t, s) ∷ saved) d hs c h q =
      elim (Change-cases (restore_snapshot paths codec (faults n) t s d)) [
        | inl (code, left, e) ↦ ground (arith, e, h, rollback_bad faults (suc n) saved left)
        | inr (d', e) ↦
            rw (e, rollback)
              (rollback-restores faults unlinked (suc n) before saved d' hs.1
                (less-Covers (faults n) t s before saved d d' (unlinked n t) hs.0 c e)
                (rw (e, rollback) at h) q)
      ]

  record Tracks (before : Disk) (c : Committed) : Type 0 where
    saved : All (IsSaved before) c.saved
    covers : Covers before c.saved c.disk

  more-Covers :
      (now : Faults) (before : Disk) (p : Prepared) (saved : List Saved) (d d' : Disk)
      → now.linked p.target ≡ false
      → IsPrepared paths codec cut before p
      → Covers before saved d
      → perform paths codec cut now p d ≡ changed d'
      → Covers before ((p.target, p.before) ∷ saved) d'
  more-Covers now before p saved d d' l h c e q f = elim (Bool-cases (str_eq p.target q)) [
    | inl here ↦ ground (arith, here, f)
    | inr there ↦
        perform_frame paths codec cut now p q d d' l h.resolves e there ∙ c q (rw there at f)
  ]

  commit-Tracks :
      (faults : ℕ → Faults) (plain : (k : ℕ) → IsPlain (faults k)) (n : ℕ) (before : Disk)
      (ps : List Prepared) (d : Disk) (saved : List Saved)
      → ((raw t : String) → resolve paths raw ≡ ok t → resolve paths t ≡ ok t)
      → All (IsPrepared paths codec cut before) ps
      → All (IsSaved before) saved
      → Covers before saved d
      → Tracks before (commit paths codec cut faults n ps d saved)
  unfolding commit
  commit-Tracks faults plain n before [] d saved stable hp hs c = record { saved = hs; covers = c }
  commit-Tracks faults plain n before (p ∷ ps) d saved stable hp hs c =
      elim (Change-cases (perform paths codec cut (faults n) p d)) [
        | inl (code, left, e) ↦
            rw (e, commit)
              (record {
                saved = hs;
                covers = λ q f.
                    ap (λ (x : Disk). x q)
                      (sym (
                        perform_broken paths codec cut (faults n) p code d left (plain n)
                          hp.0.resolves e))
                    ∙ c q f;
              })
        | inr (d', e) ↦
            rw (e, commit)
              (commit-Tracks faults plain (suc n) before ps d' ((p.target, p.before) ∷ saved) stable
                hp.1 ((stable p.operation.path p.target hp.0.resolves, hp.0.before), hs)
                (more-Covers (faults n) before p saved d d' ((plain n).unlinked p.target) hp.0 c e))
      ]

  rolled_back-restores :
      (error code : String) (before : Disk) (r : Disk × Bool)
      → (r.1 ≡ false → (q : String) → r.0 q ≡ before q)
      → (rolled_back paths codec cut error r).1 ≡ refused code
      → (q : String) → (rolled_back paths codec cut error r).0 q ≡ before q
  rolled_back-restores error code before (d, true) h e q = cc
  rolled_back-restores error code before (d, false) h e q = h refl q

  finished-restores :
      (back : ℕ → Faults) (unlinked : (k : ℕ) (t : String) → (back k).linked t ≡ false)
      (os : List PatchOperation) (before : Disk) (code : String) (c : Committed)
      → Tracks before c
      → (finished paths codec cut back os c).1 ≡ refused code
      → (q : String) → (finished paths codec cut back os c).0 q ≡ before q
  finished-restores back unlinked os before code c h e q = elim (Option-cases c.error) [
    | inl fine ↦ ground (arith, fine, e)
    | inr (error, wrong) ↦ rw wrong (
        rolled_back-restores error code before
          (rollback paths codec cut back 0 c.saved c.disk false)
          (rollback-restores back unlinked 0 before c.saved c.disk h.saved h.covers) (rw wrong at e)
          q)
  ]

  apply_operations-restores :
      (before : Faults) (during back : ℕ → Faults) (os : List PatchOperation) (d : Disk)
      (code : String)
      → ((k : ℕ) → IsPlain (during k))
      → ((k : ℕ) (t : String) → (back k).linked t ≡ false)
      → ((raw t : String) → resolve paths raw ≡ ok t → resolve paths t ≡ ok t)
      → (apply_operations paths codec cut before during back os d).1 ≡ refused code
      → (q : String) → (apply_operations paths codec cut before during back os d).0 q ≡ d q
  unfolding apply_operations
  apply_operations-restores before during back os d code plain unlinked stable h q =
      elim (Result-cases (prepare_all paths codec cut before os d)) [
        | inl (error, e) ↦ rw (e, apply_operations) refl
        | inr (ps, e) ↦
            rw (e, apply_operations)
              (finished-restores back unlinked os d code (commit paths codec cut during 0 ps d [])
                (commit-Tracks during plain 0 d ps d [] stable
                  (prepare_all-IsPrepared paths codec cut before os d ps e) tt (λ q f. refl))
                (rw (e, apply_operations) at h) q)
      ]

  applying-restores :
      (before : Faults) (during back : ℕ → Faults) (d : Disk) (r : Parsed (List PatchOperation))
      (code : String)
      → ((k : ℕ) → IsPlain (during k))
      → ((k : ℕ) (t : String) → (back k).linked t ≡ false)
      → ((raw t : String) → resolve paths raw ≡ ok t → resolve paths t ≡ ok t)
      → (applying paths codec cut before during back d r).1 ≡ refused code
      → (q : String) → (applying paths codec cut before during back d r).0 q ≡ d q
  applying-restores before during back d invalid code plain unlinked stable h q = refl
  applying-restores before during back d unfinished code plain unlinked stable h q = refl
  applying-restores before during back d (parsed os) code plain unlinked stable h q =
      apply_operations-restores before during back os d code plain unlinked stable h q

  -- If resolving a resolved path gives it again, no file that is written has a second name, and no
  -- failed write of the commit leaves its temporary file, then a patch that is refused leaves
  -- every file as it was, with its mode, whatever fails while it is prepared, committed or rolled
  -- back.
  pub apply_patch-restores :
      (hunk_of : String → Option (Option ℕ)) (spelling : Spelling) (before : Faults)
      (during back : ℕ → Faults) (patch : String) (d : Disk) (code : String)
      → ((k : ℕ) → IsPlain (during k))
      → ((k : ℕ) (t : String) → (back k).linked t ≡ false)
      → ((raw t : String) → resolve paths raw ≡ ok t → resolve paths t ≡ ok t)
      → (apply_patch paths codec cut hunk_of spelling before during back patch d).1 ≡ refused code
      → (q : String)
      → (apply_patch paths codec cut hunk_of spelling before during back patch d).0 q ≡ d q
  unfolding apply_patch
  apply_patch-restores hunk_of spelling before during back patch d code plain unlinked stable h q =
      applying-restores before during back d (parse_lines hunk_of spelling (cut.splitlines patch))
        code plain unlinked stable h q
