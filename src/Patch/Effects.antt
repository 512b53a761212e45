-- ===== src/Patch/Effects.antt =====
-- What one step of agent/tools/apply_patch.py does to the disk: a preparation, a change, a restoration.
use my_coding_agent.Base.{
  ℕ, String, true, false, Option, none, some, List, [], ◌∷◌, ◌≡◌, refl, sym, ap, ◌∙◌, arith, All,
  str_eq, eq_iff, if◌then◌else◌, Bool-cases, inl, inr, ◌⊎◌, subst, ltb, length,
}
use my_coding_agent.Files.{
  Paths, Codec, Faults, Disk, Node, Result, ok, failed, DiskChange, changed, broken,
  preserves_links, FileSnapshot, resolve, snapshot, write_text_file, remove_file, restore_snapshot,
  put, snapshot_of, restored_absent, restored, removed, write_to, node_snapshot, written, has_nul,
  max_text_file_bytes,
}
use my_coding_agent.Patch.{PatchOperation}
use my_coding_agent.Patch.Commit.{
  Lines, Prepared, prepare, prepare_at, prepare_with, prepare_all, perform,
}

value_or {ℓ} : {A : Type ℓ} → A → Result A → A
value_or default (failed error) = default
value_or default (ok value) = value

pub ok_injective {ℓ} : {A : Type ℓ} (x y : A) → ok x ≡ ok y → x ≡ y
unfolding value_or
ok_injective x y e = ap (value_or x) e

pub Result-cases {ℓ} :
    {A : Type ℓ} (r : Result A) → ((e : String) × (r ≡ failed e)) ⊎ ((a : A) × (r ≡ ok a))
Result-cases (failed e) = inl (e, refl)
Result-cases (ok a) = inr (a, refl)

disk_or : Disk → DiskChange → Disk
disk_or default (broken error left) = default
disk_or default (changed d) = d

disk_left : Disk → DiskChange → Disk
disk_left default (broken error left) = left
disk_left default (changed d) = default

pub changed_injective : (x y : Disk) → changed x ≡ changed y → x ≡ y
unfolding disk_or
changed_injective x y e = ap (disk_or x) e

pub broken_left : (code other : String) (x y : Disk) → broken code x ≡ broken other y → x ≡ y
unfolding disk_left
broken_left code other x y e = ap (disk_left x) e

pub Change-cases :
    (r : DiskChange)
    → ((e : String) × (left : Disk) × (r ≡ broken e left)) ⊎ ((d : Disk) × (r ≡ changed d))
Change-cases (broken e left) = inl (e, left, refl)
Change-cases (changed d) = inr (d, refl)

-- No file has a second name, and no failed write leaves its temporary file.
pub record IsPlain (faults : Faults) : Type 0 where
  pub unlinked : (t : String) → faults.linked t ≡ false
  pub tidy : (t : String) → faults.stray t ≡ none

preserves_links_lem :
    (faults : Faults) (t : String) (node : Option Node)
    → faults.linked t ≡ false
    → preserves_links faults t node ≡ false
preserves_links_lem faults t none h = refl
preserves_links_lem faults t (some _) h = h

-- A disk that has one path set.
pub put_lem :
    (t q : String) (entry : Option Node) (d d' : Disk)
    → put t entry d ≡ d'
    → d' q ≡ (if str_eq t q then entry else d q)
put_lem t q entry d d' e = ap (λ (f : Disk). f q) (sym e)

unchanged_lem :
    (t q : String) (d d' : Disk) → d t ≡ none → d ≡ d' → d' q ≡ (if str_eq t q then none else d q)
unchanged_lem t q d d' e f = ap (λ (g : Disk). g q) (sym f) ∙ same (Bool-cases (str_eq t q))
  where
    same : (str_eq t q ≡ true) ⊎ (str_eq t q ≡ false) → d q ≡ (if str_eq t q then none else d q)
    same (inl h) = rw h (subst (λ s. d s ≡ none) ((eq_iff t q).0 h) e)
    same (inr h) = rw h refl

restored_absent_lem :
    (faults : Faults) (t q : String) (node : Option Node) (d d' : Disk)
    → d t ≡ node
    → restored_absent faults t d node ≡ changed d'
    → d' q ≡ (if str_eq t q then none else d q)
restored_absent_lem faults t q none d d' e h = unchanged_lem t q d d' e (changed_injective d d' h)
restored_absent_lem faults t q (some (Node.other m)) d d' e h = cc
restored_absent_lem faults t q (some (Node.file c m)) d d' e h =
    elim (Bool-cases (faults.changing t)) [
      | inl bad ↦ cc
      | inr good ↦ put_lem t q none d d' (changed_injective (put t none d) d' (rw good at h))
    ]

restored_lem :
    (codec : Codec) (faults : Faults) (t q : String) (o : Option Node) (d d' : Disk)
    → faults.linked t ≡ false
    → restored codec faults t (snapshot_of o) d ≡ changed d'
    → d' q ≡ (if str_eq t q then o else d q)
restored_lem codec faults t q none d d' l h = elim (Bool-cases (faults.inspecting t)) [
  | inl bad ↦ cc
  | inr good ↦ restored_absent_lem faults t q (d t) d d' refl (rw good at h)
]
restored_lem codec faults t q (some (Node.other m)) d d' l h = cc
restored_lem codec faults t q (some (Node.file c m)) d d' l h =
    elim (Bool-cases (faults.making_parent t)) [
      | inl bad ↦ cc
      | inr made ↦ elim (Bool-cases (faults.changing t)) [
        | inl bad ↦ ground (arith, made, bad, preserves_links_lem faults t (d t) l, h)
        | inr good ↦
            put_lem t q (some (Node.file c m)) d d'
              (changed_injective _ d' (rw (made, preserves_links_lem faults t (d t) l, good) at h))
      ]
    ]

removed_lem :
    (faults : Faults) (t : String) (entry : Option Node) (d d' : Disk)
    → removed faults t d entry ≡ changed d'
    → put t none d ≡ d'
removed_lem faults t none d d' h = cc
removed_lem faults t (some (Node.other m)) d d' h = cc
removed_lem faults t (some (Node.file c m)) d d' h = elim (Bool-cases (faults.changing t)) [
  | inl bad ↦ cc
  | inr good ↦ changed_injective (put t none d) d' (rw good at h)
]

node_snapshot_lem :
    (faults : Faults) (t : String) (entry : Option Node) (s : FileSnapshot)
    → node_snapshot faults t entry ≡ ok s
    → s ≡ snapshot_of entry
node_snapshot_lem faults t none s h = sym (ok_injective _ s h)
node_snapshot_lem faults t (some (Node.other m)) s h = sym (ok_injective _ s h)
node_snapshot_lem faults t (some (Node.file c m)) s h =
    elim (Bool-cases (ltb max_text_file_bytes (length c))) [
      | inl large ↦ ground (arith, large, h)
      | inr small ↦ elim (Bool-cases (faults.reading t)) [
        | inl bad ↦ ground (arith, small, bad, h)
        | inr good ↦ sym (ok_injective _ s (rw (small, good) at h))
      ]
    ]

module _ (paths : Paths) (codec : Codec) (cut : Lines) where
  pub restore_lem :
      (faults : Faults) (t q : String) (o : Option Node) (d d' : Disk)
      → faults.linked t ≡ false
      → resolve paths t ≡ ok t
      → restore_snapshot paths codec faults t (snapshot_of o) d ≡ changed d'
      → d' q ≡ (if str_eq t q then o else d q)
  unfolding restore_snapshot
  restore_lem faults t q o d d' l e h =
      restored_lem codec faults t q o d d' l (rw (e, restore_snapshot) at h)

  -- The change of a step puts the new file, or no file, at its path.
  abbrev pub Makes : Option String → Option Node → Type 0
  Makes none entry = entry ≡ none
  Makes (some text) entry = (mode : ℕ) × (entry ≡ some (Node.file (codec.encode text) mode))

  abbrev Puts : String → Option String → Disk → Disk → Type 0
  Puts t final d d' = (entry : Option Node) × Makes final entry × (put t entry d ≡ d')

  write_to-Puts :
      (faults : Faults) (t text : String) (d d' : Disk)
      → faults.linked t ≡ false
      → write_to paths codec faults t text d ≡ changed d'
      → Puts t (some text) d d'
  write_to-Puts faults t text d d' l h = elim (Bool-cases (faults.making_parent t)) [
    | inl bad ↦ cc
    | inr good ↦ elim (Result-cases (written codec faults t text d (d t))) [
      | inl (code, f) ↦ absurd_result code d (rw (good, f) at h)
      | inr (mode, f) ↦ elim (Bool-cases (faults.changing t)) [
        | inl bad ↦
            absurd_result "IO_ERROR" _
              (rw (good, f, preserves_links_lem faults t (d t) l, bad) at h)
        | inr well ↦ (
          _,
          (mode, refl),
          changed_injective _ d' (rw (good, f, preserves_links_lem faults t (d t) l, well) at h),
        )
      ]
    ]
  ]
    where
      absurd_result :
          (code : String) (left : Disk) → broken code left ≡ changed d' → Puts t (some text) d d'
      absurd_result code left e = cc

  write-Puts :
      (faults : Faults) (raw t text : String) (d d' : Disk)
      → faults.linked t ≡ false
      → resolve paths raw ≡ ok t
      → write_text_file paths codec faults raw text d ≡ changed d'
      → Puts t (some text) d d'
  unfolding write_text_file
  write-Puts faults raw t text d d' l e h = elim (Bool-cases (has_nul text)) [
    | inl bad ↦ refused_write (rw (bad, write_text_file) at h)
    | inr good ↦ write_to-Puts faults t text d d' l (rw (good, e, write_text_file) at h)
  ]
    where
      refused_write : broken "NOT_TEXT" d ≡ changed d' → Puts t (some text) d d'
      refused_write k = cc

  remove-Puts :
      (faults : Faults) (raw t : String) (d d' : Disk)
      → resolve paths raw ≡ ok t
      → remove_file paths codec faults raw d ≡ changed d'
      → Puts t none d d'
  unfolding remove_file
  remove-Puts faults raw t d d' e h = elim (Bool-cases (faults.inspecting t)) [
    | inl bad ↦ refused_removal (rw (e, bad, remove_file) at h)
    | inr good ↦ (none, refl, removed_lem faults t (d t) d d' (rw (e, good, remove_file) at h))
  ]
    where
      refused_removal : broken "IO_ERROR" d ≡ changed d' → Puts t none d d'
      refused_removal k = cc

  pub perform-Puts :
      (faults : Faults) (p : Prepared) (d d' : Disk)
      → faults.linked p.target ≡ false
      → resolve paths p.operation.path ≡ ok p.target
      → perform paths codec cut faults p d ≡ changed d'
      → Puts p.target p.final d d'
  perform-Puts faults p d d' l e h = step p.final refl
    where
      step : (o : Option String) → p.final ≡ o → Puts p.target o d d'
      step none gone = remove-Puts faults p.operation.path p.target d d' e (rw gone at h)
      step (some text) kept =
          write-Puts faults p.operation.path p.target text d d' l e (rw kept at h)

  pub perform_frame :
      (faults : Faults) (p : Prepared) (q : String) (d d' : Disk)
      → faults.linked p.target ≡ false
      → resolve paths p.operation.path ≡ ok p.target
      → perform paths codec cut faults p d ≡ changed d'
      → str_eq p.target q ≡ false
      → d' q ≡ d q
  perform_frame faults p q d d' l e h f =
      let (entry, made, same) = perform-Puts faults p d d' l e h in
      rw f at (put_lem p.target q entry d d' same)

  write_to_broken :
      (faults : Faults) (t text code : String) (d left : Disk)
      → faults.linked t ≡ false
      → faults.stray t ≡ none
      → write_to paths codec faults t text d ≡ broken code left
      → d ≡ left
  write_to_broken faults t text code d left l s h = elim (Bool-cases (faults.making_parent t)) [
    | inl bad ↦ broken_left _ code d left (rw bad at h)
    | inr good ↦ elim (Result-cases (written codec faults t text d (d t))) [
      | inl (error, f) ↦ broken_left error code d left (rw (good, f) at h)
      | inr (mode, f) ↦ elim (Bool-cases (faults.changing t)) [
        | inl bad ↦
            broken_left _ code d left
              (rw (good, f, preserves_links_lem faults t (d t) l, bad, s) at h)
        | inr well ↦ absurd_result _ (rw (good, f, preserves_links_lem faults t (d t) l, well) at h)
      ]
    ]
  ]
    where
      absurd_result : (x : Disk) → changed x ≡ broken code left → d ≡ left
      absurd_result x e = cc

  removed_broken :
      (faults : Faults) (t code : String) (node : Option Node) (d left : Disk)
      → removed faults t d node ≡ broken code left
      → d ≡ left
  removed_broken faults t code none d left h = broken_left _ code d left h
  removed_broken faults t code (some (Node.other m)) d left h = broken_left _ code d left h
  removed_broken faults t code (some (Node.file c m)) d left h =
      elim (Bool-cases (faults.changing t)) [
        | inl bad ↦ broken_left _ code d left (rw bad at h)
        | inr well ↦ absurd_result (rw well at h)
      ]
    where
      absurd_result : changed (put t none d) ≡ broken code left → d ≡ left
      absurd_result e = cc

  write_broken :
      (faults : Faults) (raw t text code : String) (d left : Disk)
      → IsPlain faults
      → resolve paths raw ≡ ok t
      → write_text_file paths codec faults raw text d ≡ broken code left
      → d ≡ left
  unfolding write_text_file
  write_broken faults raw t text code d left plain e h = elim (Bool-cases (has_nul text)) [
    | inl bad ↦ broken_left _ code d left (rw (bad, write_text_file) at h)
    | inr good ↦
        write_to_broken faults t text code d left (plain.unlinked t) (plain.tidy t)
          (rw (good, e, write_text_file) at h)
  ]

  remove_broken :
      (faults : Faults) (raw t code : String) (d left : Disk)
      → resolve paths raw ≡ ok t
      → remove_file paths codec faults raw d ≡ broken code left
      → d ≡ left
  unfolding remove_file
  remove_broken faults raw t code d left e h = elim (Bool-cases (faults.inspecting t)) [
    | inl bad ↦ broken_left _ code d left (rw (e, bad, remove_file) at h)
    | inr good ↦ removed_broken faults t code (d t) d left (rw (e, good, remove_file) at h)
  ]

  -- A change that fails leaves a plain disk as it was.
  pub perform_broken :
      (faults : Faults) (p : Prepared) (code : String) (d left : Disk)
      → IsPlain faults
      → resolve paths p.operation.path ≡ ok p.target
      → perform paths codec cut faults p d ≡ broken code left
      → d ≡ left
  perform_broken faults p code d left plain e h = step p.final refl
    where
      step : (o : Option String) → p.final ≡ o → d ≡ left
      step none gone = remove_broken faults p.operation.path p.target code d left e (rw gone at h)
      step (some text) kept =
          write_broken faults p.operation.path p.target text code d left plain e (rw kept at h)

  -- What preparing an operation finds out
  pub record IsPrepared (d : Disk) (p : Prepared) : Type 0 where
    pub resolves : resolve paths p.operation.path ≡ ok p.target
    pub before : p.before ≡ snapshot_of (d p.target)

  prepared_with :
      (o : PatchOperation) (t : String) (s : FileSnapshot) (f : Result (Option String)) (d : Disk)
      (p : Prepared)
      → resolve paths o.path ≡ ok t
      → s ≡ snapshot_of (d t)
      → prepare_with paths codec cut o t s f ≡ ok p
      → IsPrepared d p
  prepared_with o t s (failed e) d p r b h = cc
  prepared_with o t s (ok final) d p r b h =
      subst (IsPrepared d) (ok_injective _ p h) (record { resolves = r; before = b })

  snapshot_lem :
      (faults : Faults) (raw t : String) (s : FileSnapshot) (d : Disk)
      → resolve paths raw ≡ ok t
      → snapshot paths codec faults raw d ≡ ok s
      → s ≡ snapshot_of (d t)
  unfolding snapshot
  snapshot_lem faults raw t s d e h = elim (Bool-cases (faults.inspecting t)) [
    | inl bad ↦ ground (arith, e, bad, h)
    | inr good ↦ node_snapshot_lem faults t (d t) s (rw (e, good, snapshot) at h)
  ]

  prepared_at :
      (faults : Faults) (o : PatchOperation) (t : String) (d : Disk) (p : Prepared)
      → resolve paths o.path ≡ ok t
      → prepare_at paths codec cut faults o d (ok t) ≡ ok p
      → IsPrepared d p
  prepared_at faults o t d p e h = elim (Result-cases (snapshot paths codec faults o.path d)) [
    | inl (code, f) ↦ ground (arith, f, h)
    | inr (s, f) ↦ prepared_with o t s _ d p e (snapshot_lem faults o.path t s d e f) (rw f at h)
  ]

  pub prepare-IsPrepared :
      (faults : Faults) (o : PatchOperation) (d : Disk) (p : Prepared)
      → prepare paths codec cut faults o d ≡ ok p
      → IsPrepared d p
  prepare-IsPrepared faults o d p h = elim (Result-cases (resolve paths o.path)) [
    | inl (code, e) ↦ ground (arith, e, h)
    | inr (t, e) ↦ prepared_at faults o t d p e (rw e at h)
  ]

  pub prepare_all-IsPrepared :
      (faults : Faults) (os : List PatchOperation) (d : Disk) (ps : List Prepared)
      → prepare_all paths codec cut faults os d ≡ ok ps
      → All (IsPrepared d) ps
  unfolding prepare_all
  prepare_all-IsPrepared faults [] d ps h = subst (All (IsPrepared d)) (ok_injective [] ps h) tt
  prepare_all-IsPrepared faults (o ∷ os) d ps h =
      elim (Result-cases (prepare paths codec cut faults o d)) [
        | inl (code, e) ↦ ground (arith, e, h)
        | inr (p, e) ↦ elim (Result-cases (prepare_all paths codec cut faults os d)) [
          | inl (code, f) ↦ ground (arith, e, f, h)
          | inr (rest, f) ↦
              subst (All (IsPrepared d)) (ok_injective (p ∷ rest) ps (rw (e, f) at h))
                (prepare-IsPrepared faults o d p e, prepare_all-IsPrepared faults os d rest f)
        ]
      ]
