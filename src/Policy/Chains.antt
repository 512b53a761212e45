-- ===== src/Policy/Chains.antt =====
-- `_classify_tokens` of agent/runtime/policy.py: the chain of wrappers down to the executable that is classified.
use my_coding_agent.Base.{
  ℕ, zero, suc, String, Bool, true, false, ◌||◌, Option, none, some, List, [], ◌∷◌, map, any,
  contains, str_eq, eq_iff, ◌≡◌, refl, sym, ap, inl, inr, subst, arith, Bool-cases, if◌then◌else◌,
}
use my_coding_agent.Policy.{ExecClassification, Lexer, classify_direct, executable_of}
use my_coding_agent.Policy.Wrappers.{
  Plan, behind_module_flag, run_module, module_plan, python_plan, is_inline,
  classify_script_interpreter, wrapper_target, plan_with, plan_of, classify_tokens, is_dynamic,
  dynamic_flags,
}
use my_coding_agent.Policy.Mild.{is_mild, is_dangerous, direct_class-is_mild}
use my_coding_agent.Policy.Unwrapping.{
  IsSuffix, cons-IsSuffix, IsTarget, some_injective, wrapper_target-IsTarget,
}

-- The tokens come down to an executable with its arguments, through wrappers that each take a target from
-- their own arguments.
pub data Runs (lexer : Lexer) : List String → String → List String → Type 0 where
  runs :
      {token : String} {args : List String} (class : ExecClassification)
      → plan_of lexer token args ≡ Plan.verdict class
      → Runs lexer (token ∷ args) token args
  wraps :
      {token inner : String} {args target rest : List String}
      → plan_of lexer token args ≡ Plan.unwrap target
      → IsTarget lexer args target
      → Runs lexer target inner rest
      → Runs lexer (token ∷ args) inner rest

abbrev class_or_unknown : Plan → ExecClassification
class_or_unknown (Plan.verdict class) = class
class_or_unknown (Plan.unwrap target) = ExecClassification.unknown

abbrev target_or_none : Plan → List String
target_or_none (Plan.verdict class) = []
target_or_none (Plan.unwrap target) = target

abbrev is_mild_verdict : Plan → Bool
is_mild_verdict plan = is_mild (class_or_unknown plan)

module _ (lexer : Lexer) where
  abbrev IsHarmless : String → List String → Type 0
  IsHarmless token args = is_dangerous (executable_of lexer token) (map lexer.lower args) ≡ false

  classify_direct-IsHarmless :
      (token : String) (args : List String)
      → is_mild (classify_direct lexer token args) ≡ true
      → IsHarmless token args
  unfolding classify_direct
  classify_direct-IsHarmless token args h =
      direct_class-is_mild (executable_of lexer token) (map lexer.lower args) h

  classify_script_interpreter-IsHarmless :
      (token : String) (args : List String)
      → is_mild (classify_script_interpreter lexer token args) ≡ true
      → IsHarmless token args
  unfolding classify_script_interpreter
  classify_script_interpreter-IsHarmless token args h =
      elim (Bool-cases (any (is_dynamic (dynamic_flags (executable_of lexer token))) args)) [
        | inl dynamic ↦ refused (rw dynamic at h)
        | inr still ↦ classify_direct-IsHarmless token args (rw still at h)
      ]
    where
      refused : false ≡ true → IsHarmless token args
      refused k = ground arith

  -- A Python is not among the dangerous executables.
  python-IsHarmless :
      (executable : String) (args : List String)
      → contains executable ("python" ∷ "python3" ∷ []) ≡ true
      → is_dangerous executable args ≡ false
  python-IsHarmless executable args h = elim (Bool-cases (str_eq "python" executable)) [
    | inl e ↦ named "python" (ground (arith, eq_iff "python" executable)) refl
    | inr other ↦ named "python3" (ground (arith, eq_iff "python3" executable)) refl
  ]
    where
      named :
          (n : String)
          → n ≡ executable
          → is_dangerous n args ≡ false
          → is_dangerous executable args ≡ false
      named n e k = subst (λ name. is_dangerous name args ≡ false) e k

  plan_of-IsHarmless :
      (token : String) (args : List String)
      → is_mild_verdict (plan_of lexer token args) ≡ true
      → IsHarmless token args
  unfolding plan_of
  plan_of-IsHarmless token args h = wrapped (wrapper_target lexer executable args) h
    where
      executable : String
      executable = executable_of lexer token

      wrapped :
          (o : Option (Option (List String)))
          → is_mild_verdict (plan_with lexer executable token args o) ≡ true
          → IsHarmless token args
      wrapped (some none) k = ground arith
      wrapped (some (some target)) k = ground arith
      wrapped none k = elim (Bool-cases (contains executable ("python" ∷ "python3" ∷ []))) [
        | inl python ↦ python-IsHarmless executable (map lexer.lower args) python
        | inr other ↦
            elim (Bool-cases (contains executable ("node" ∷ "ruby" ∷ "perl" ∷ "php" ∷ []))) [
              | inl script ↦
                  classify_script_interpreter-IsHarmless token args (rw (other, script) at k)
              | inr plain ↦ classify_direct-IsHarmless token args (rw (other, plain) at k)
            ]
      ]

  behind_module_flag-IsSuffix :
      (args rest : List String) → behind_module_flag lexer args ≡ some rest → IsSuffix rest args
  behind_module_flag-IsSuffix [] rest h = cc
  behind_module_flag-IsSuffix (a ∷ args) rest h = elim (Bool-cases (str_eq (lexer.lower a) "-m")) [
    | inl flag ↦ cons-IsSuffix a rest args ([], some_injective args rest (rw flag at h))
    | inr other ↦ cons-IsSuffix a rest args (behind_module_flag-IsSuffix args rest (rw other at h))
  ]

  module_plan-IsTarget :
      (args rest target : List String)
      → IsSuffix rest args
      → module_plan lexer rest ≡ Plan.unwrap target
      → IsTarget lexer args target
  module_plan-IsTarget args [] target h e = cc
  module_plan-IsTarget args (m ∷ rest) target h e =
      elim (Bool-cases
        (contains (lexer.lower m) ("pip" ∷ "pip3" ∷ "pipx" ∷ "npm" ∷ "yarn" ∷ "pnpm" ∷ []))) [
          | inl manager ↦ (h.0, m, rest, h.1, inr (sym (ap target_or_none (rw manager at e))))
          | inr other ↦
              no_target
                (contains (lexer.lower m) (
                  "pytest" ∷ "py.test" ∷ "tox" ∷ "nox" ∷ "ruff" ∷ "flake8" ∷ "mypy" ∷ "pyright"
                  ∷ "unittest" ∷ []))
                ExecClassification.test_build ExecClassification.ordinary_sandboxed (rw other at e)
        ]
    where
      no_target :
          (b : Bool) (x y : ExecClassification)
          → (if b then Plan.verdict x else Plan.verdict y) ≡ Plan.unwrap target
          → IsTarget lexer args target
      no_target true x y k = cc
      no_target false x y k = cc

  run_module-IsTarget :
      (token : String) (args target : List String) (o : Option (List String))
      → behind_module_flag lexer args ≡ o
      → run_module lexer token args o ≡ Plan.unwrap target
      → IsTarget lexer args target
  run_module-IsTarget token args target none h e = cc
  run_module-IsTarget token args target (some rest) h e =
      module_plan-IsTarget args rest target (behind_module_flag-IsSuffix args rest h) e

  python_plan-IsTarget :
      (token : String) (args target : List String)
      → python_plan lexer token args ≡ Plan.unwrap target
      → IsTarget lexer args target
  unfolding python_plan
  python_plan-IsTarget token args target h =
      elim (Bool-cases
        (any is_inline (map lexer.lower args) || contains "-" (map lexer.lower args))) [
          | inl inline ↦ refused (rw inline at h)
          | inr other ↦
              run_module-IsTarget token args target (behind_module_flag lexer args) refl
                (rw other at h)
        ]
    where
      refused :
          Plan.verdict ExecClassification.dynamic_interpreter ≡ Plan.unwrap target
          → IsTarget lexer args target
      refused k = cc

  plan_of-IsTarget :
      (token : String) (args target : List String)
      → plan_of lexer token args ≡ Plan.unwrap target
      → IsTarget lexer args target
  unfolding plan_of
  plan_of-IsTarget token args target h = wrapped (wrapper_target lexer executable args) refl h
    where
      executable : String
      executable = executable_of lexer token

      refused :
          (class : ExecClassification)
          → Plan.verdict class ≡ Plan.unwrap target
          → IsTarget lexer args target
      refused class k = cc

      wrapped :
          (o : Option (Option (List String)))
          → wrapper_target lexer executable args ≡ o
          → plan_with lexer executable token args o ≡ Plan.unwrap target
          → IsTarget lexer args target
      wrapped (some none) e k = cc
      wrapped (some (some ts)) e k =
          subst (IsTarget lexer args) (ap target_or_none k)
            (wrapper_target-IsTarget lexer executable args ts e)
      wrapped none e k = elim (Bool-cases (contains executable ("python" ∷ "python3" ∷ []))) [
        | inl python ↦ python_plan-IsTarget token args target (rw python at k)
        | inr other ↦
            elim (Bool-cases (contains executable ("node" ∷ "ruby" ∷ "perl" ∷ "php" ∷ []))) [
              | inl script ↦
                  refused (classify_script_interpreter lexer token args) (rw (other, script) at k)
              | inr plain ↦ refused (classify_direct lexer token args) (rw (other, plain) at k)
            ]
      ]

-- The executable that the tokens come down to is not dangerous.
abbrev pub EndsHarmless : Lexer → List String → Type 0
EndsHarmless lexer tokens =
    (token : String) × (args : List String) × Runs lexer tokens token args
    × (is_dangerous (executable_of lexer token) (map lexer.lower args) ≡ false)

-- Where the class of some tokens needs no approval outside the untrusted mode, the tokens come
-- down through wrappers, each of which takes a target from its own arguments, to an executable that is
-- not dangerous with its arguments.
pub classify_tokens-EndsHarmless :
    (lexer : Lexer) (n : ℕ) (tokens : List String)
    → is_mild (classify_tokens lexer n tokens) ≡ true
    → EndsHarmless lexer tokens
unfolding classify_tokens
classify_tokens-EndsHarmless lexer zero tokens h = refused h
  where
    refused : false ≡ true → EndsHarmless lexer tokens
    refused k = cc
classify_tokens-EndsHarmless lexer (suc n) [] h = refused h
  where
    refused : false ≡ true → EndsHarmless lexer []
    refused k = cc
classify_tokens-EndsHarmless lexer (suc n) (token ∷ args) h =
    go (λ target k. classify_tokens-EndsHarmless lexer n target k) (plan_of lexer token args) refl
  where
    go :
        ((target : List String)
          → is_mild (classify_tokens lexer n target) ≡ true
          → EndsHarmless lexer target)
        → (plan : Plan) → plan_of lexer token args ≡ plan
        → EndsHarmless lexer (token ∷ args)
    go inner (Plan.verdict class) e = (
      token,
      args,
      Runs.runs class e,
      plan_of-IsHarmless lexer token args (rw e (rw (e, classify_tokens) at h)),
    )
    go inner (Plan.unwrap target) e =
        let (last, rest, chain, harmless) = inner target (rw (e, classify_tokens) at h) in
        (last, rest, Runs.wraps e (plan_of-IsTarget lexer token args target e) chain, harmless)
