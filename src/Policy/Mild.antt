-- ===== src/Policy/Mild.antt =====
-- `_classify_direct` of agent/runtime/policy.py: what the classes that need no approval say of the executable.
use my_coding_agent.Base.{
  String, Bool, true, false, ◌&&◌, ◌||◌, List, contains, str_eq, eq_iff, ◌≡◌, refl, inl, inr, arith,
  Bool-cases, if◌then◌else◌,
}
use my_coding_agent.Policy.{
  ExecClassification, direct_class, destructive_executables, privileged_executables,
  network_executables, git_class, git_is_destructive, git_is_networked, find_acts,
}

-- The classes that `decide` allows where the mode is not `untrusted`
abbrev pub is_mild : ExecClassification → Bool
is_mild ExecClassification.safe_read_only = true
is_mild ExecClassification.test_build = true
is_mild ExecClassification.ordinary_sandboxed = true
is_mild _ = false

-- An executable that deletes, that takes rights or that goes to the network, with arguments that let it
abbrev pub is_dangerous : String → List String → Bool
is_dangerous executable args =
    contains executable destructive_executables
    || contains executable privileged_executables
    || contains executable network_executables
    || (str_eq executable "find" && find_acts args)
    || (str_eq executable "git" && (git_is_destructive args || git_is_networked args))

-- A test whose class is not mild has failed.
passed :
    (b : Bool) (x y : ExecClassification)
    → is_mild (if b then x else y) ≡ true
    → is_mild x ≡ false
    → (b ≡ false) × (is_mild y ≡ true)
passed true x y h e = ground (arith)
passed false x y h e = (refl, h)

git_class-is_mild :
    (args : List String)
    → is_mild (git_class args) ≡ true
    → (git_is_destructive args || git_is_networked args) ≡ false
git_class-is_mild args h =
    let (d, next) = passed (git_is_destructive args) ExecClassification.destructive _ h refl in
    let (n, _) = passed (git_is_networked args) ExecClassification.network _ next refl in
    rw (d, n) refl

git_dangerous :
    (executable : String) (args : List String)
    → executable ≡ "git"
    → (git_is_destructive args || git_is_networked args) ≡ false
    → is_dangerous executable args ≡ false
git_dangerous executable args e h = rw (e, h) refl

pub direct_class-is_mild :
    (executable : String) (args : List String)
    → is_mild (direct_class executable args) ≡ true
    → is_dangerous executable args ≡ false
unfolding direct_class
direct_class-is_mild executable args h =
    let (d, next) =
      passed (contains executable destructive_executables) ExecClassification.destructive _ h
        refl in
    let (f, next) =
      passed (str_eq executable "find" && find_acts args) ExecClassification.destructive _ next
        refl in
    elim (Bool-cases (str_eq executable "git")) [
      | inl g ↦
          git_dangerous executable args (ground (arith, eq_iff executable "git"))
            (git_class-is_mild args (rw g at next))
      | inr g ↦
          let (p, next) =
            passed (contains executable privileged_executables) ExecClassification.privileged _
              (rw g at next) refl in
          let (n, _) =
            passed (contains executable network_executables) ExecClassification.network _ next
              refl in
          rw (d, p, n, f, g) refl
    ]
