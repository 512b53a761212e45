-- ===== src/Policy/Unwrapping.antt =====
-- agent/runtime/policy.py: what `_classify_tokens` takes off a command, and what a mild class says of the rest.
use my_coding_agent.Base.{
  String, Option, none, some, List, [], ◌∷◌, ◌++◌, str_eq, ◌≡◌, refl, sym, ap, ◌∙◌, ◌⊎◌, inl, inr,
  subst, Bool-cases, append_assoc,
}
use my_coding_agent.Base.Texts.{starts_with}
use my_coding_agent.Policy.{Lexer}
use my_coding_agent.Policy.Options.{
  Round, read_options, or_none, command_round, exec_round, nice_round,
}
use my_coding_agent.Policy.Prefixes.{
  is_timeout_duration, timeout_round, stdbuf_round, env_round, xargs_round,
}
use my_coding_agent.Policy.Wrappers.{
  without_marker, nohup_target, timeout_rest, timeout_target, wrapper_target,
}

-- The rest is what a list ends with.
abbrev pub IsSuffix : List String → List String → Type 0
IsSuffix rest args = (front : List String) × (args ≡ front ++ rest)

pub cons-IsSuffix :
    (t : String) (rest args : List String) → IsSuffix rest args → IsSuffix rest (t ∷ args)
cons-IsSuffix t rest args (front, e) = (t ∷ front, ap (λ xs. t ∷ xs) e)

pub some_injective : (xs ys : List String) → some xs ≡ some ys → xs ≡ ys
some_injective xs ys e = ap (value_or xs) e
  where
    value_or : List String → Option (List String) → List String
    value_or default none = default
    value_or default (some zs) = zs

or_else : Option (List String) → Option (Option (List String)) → Option (List String)
or_else default none = default
or_else default (some x) = x

-- The rest of a list that stops here
whole_suffix : (args rest : List String) → some args ≡ some rest → IsSuffix rest args
whole_suffix args rest e = ([], some_injective args rest e)

Round-cases :
    (r : Round)
    → (r ≡ Round.ends) ⊎ (r ≡ Round.marker) ⊎ (r ≡ Round.one) ⊎ (r ≡ Round.two) ⊎ (r ≡ Round.refuse)
Round-cases Round.ends = inl refl
Round-cases Round.marker = inr (inl refl)
Round-cases Round.one = inr (inr (inl refl))
Round-cases Round.two = inr (inr (inr (inl refl)))
Round-cases Round.refuse = inr (inr (inr (inr refl)))

read_options-IsSuffix :
    (round : String → Option String → Round) (args rest : List String)
    → read_options round args ≡ some rest
    → IsSuffix rest args
unfolding read_options
read_options-IsSuffix round [] rest h = whole_suffix [] rest h
read_options-IsSuffix round (t ∷ []) rest h = elim (Round-cases (round t none)) [
  | inl e ↦ whole_suffix (t ∷ []) rest (rw (e, read_options) at h)
  | inr (inl e) ↦ cons-IsSuffix t rest [] (whole_suffix [] rest (rw (e, read_options) at h))
  | inr (inr (inl e)) ↦ cons-IsSuffix t rest [] (whole_suffix [] rest (rw (e, read_options) at h))
  | inr (inr (inr (inl e))) ↦
      cons-IsSuffix t rest [] (whole_suffix [] rest (rw (e, read_options) at h))
  | inr (inr (inr (inr e))) ↦ refused (rw (e, read_options) at h)
]
  where
    refused : none ≡ some rest → IsSuffix rest (t ∷ [])
    refused k = cc
read_options-IsSuffix round (t ∷ v ∷ args) rest h = elim (Round-cases (round t (some v))) [
  | inl e ↦ whole_suffix (t ∷ v ∷ args) rest (rw (e, read_options) at h)
  | inr (inl e) ↦
      cons-IsSuffix t rest (v ∷ args) (whole_suffix (v ∷ args) rest (rw (e, read_options) at h))
  | inr (inr (inl e)) ↦
      cons-IsSuffix t rest (v ∷ args)
        (read_options-IsSuffix round (v ∷ args) rest (rw (e, read_options) at h))
  | inr (inr (inr (inl e))) ↦ cons-IsSuffix t rest (v ∷ args) (
      cons-IsSuffix v rest args (read_options-IsSuffix round args rest (rw (e, read_options) at h)))
  | inr (inr (inr (inr e))) ↦ refused (rw (e, read_options) at h)
]
  where
    refused : none ≡ some rest → IsSuffix rest (t ∷ v ∷ args)
    refused k = cc

-- A target: a word of the arguments, which may be in lower case, and all that follows it
abbrev pub IsTarget : Lexer → List String → List String → Type 0
IsTarget lexer args target =
    (front : List String) × (word : String) × (rest : List String) × (args ≡ front ++ (word ∷ rest))
    × ((target ≡ word ∷ rest) ⊎ (target ≡ lexer.lower word ∷ rest))

pub suffix-IsTarget :
    (lexer : Lexer) (word : String) (rest args : List String)
    → IsSuffix (word ∷ rest) args
    → IsTarget lexer args (word ∷ rest)
suffix-IsTarget lexer word rest args (front, e) = (front, word, rest, e, inl refl)

module _ (lexer : Lexer) where
  or_none-IsTarget :
      (round : String → Option String → Round) (args : List String) (o : Option (List String))
      (target : List String)
      → read_options round args ≡ o
      → or_none o ≡ some target
      → IsTarget lexer args target
  or_none-IsTarget round args none target e h = cc
  or_none-IsTarget round args (some []) target e h = cc
  or_none-IsTarget round args (some (t ∷ ts)) target e h =
      subst (IsTarget lexer args) (some_injective (t ∷ ts) target h)
        (suffix-IsTarget lexer t ts args (read_options-IsSuffix round args (t ∷ ts) e))

  append_assoc_one :
      (front : List String) (d : String) (rest args : List String)
      → args ≡ front ++ (d ∷ rest)
      → IsSuffix rest args
  append_assoc_one front d rest args e =
      (front ++ (d ∷ []), e ∙ sym (append_assoc front (d ∷ []) rest))

  without_marker-IsTarget :
      (ts args target : List String)
      → IsSuffix ts args
      → or_none (some (without_marker ts)) ≡ some target
      → IsTarget lexer args target
  without_marker-IsTarget [] args target h e = cc
  without_marker-IsTarget (t ∷ ts) args target h e = elim (Bool-cases (str_eq t "--")) [
    | inl marked ↦ ended ts target (append_assoc_one h.0 t ts args h.1) (rw marked at e)
    | inr plain ↦
        subst (IsTarget lexer args) (some_injective (t ∷ ts) target (rw plain at e))
          (suffix-IsTarget lexer t ts args h)
  ]
    where
      ended :
          (us goal : List String)
          → IsSuffix us args
          → or_none (some us) ≡ some goal
          → IsTarget lexer args goal
      ended [] goal k f = cc
      ended (u ∷ us) goal k f =
          subst (IsTarget lexer args) (some_injective (u ∷ us) goal f)
            (suffix-IsTarget lexer u us args k)

  timeout_rest-IsTarget :
      (rest args target : List String)
      → IsSuffix rest args
      → timeout_rest lexer rest ≡ some target
      → IsTarget lexer args target
  timeout_rest-IsTarget [] args target h e = cc
  timeout_rest-IsTarget (d ∷ []) args target h e = cc
  timeout_rest-IsTarget (d ∷ t ∷ ts) args target h e =
      elim (Bool-cases (is_timeout_duration lexer d)) [
        | inl timed ↦
            without_marker-IsTarget (t ∷ ts) args target (append_assoc_one h.0 d (t ∷ ts) args h.1)
              (rw timed at e)
        | inr other ↦ refused (rw other at e)
      ]
    where
      refused : none ≡ some target → IsTarget lexer args target
      refused k = cc

  timeout_target-IsTarget :
      (round : String → Option String → Round) (args : List String) (o : Option (List String))
      (target : List String)
      → read_options round args ≡ o
      → timeout_target lexer o ≡ some target
      → IsTarget lexer args target
  timeout_target-IsTarget round args none target e h = cc
  timeout_target-IsTarget round args (some rest) target e h =
      timeout_rest-IsTarget rest args target (read_options-IsSuffix round args rest e) h

  nohup_target-IsTarget :
      (args target : List String) → nohup_target args ≡ some target → IsTarget lexer args target
  nohup_target-IsTarget [] target e = cc
  nohup_target-IsTarget (t ∷ ts) target e = elim (Bool-cases (str_eq t "--")) [
    | inl marked ↦
        without_marker-IsTarget (t ∷ ts) (t ∷ ts) target ([], refl) (rw marked (rw marked at e))
    | inr plain ↦ elim (Bool-cases (starts_with "-" t)) [
      | inl option ↦ refused (rw (plain, option) at e)
      | inr word ↦
          subst (IsTarget lexer (t ∷ ts)) (some_injective (t ∷ ts) target (rw (plain, word) at e))
            (suffix-IsTarget lexer t ts (t ∷ ts) ([], refl))
    ]
  ]
    where
      refused : none ≡ some target → IsTarget lexer (t ∷ ts) target
      refused k = cc

  -- What a wrapper is taken off from
  pub wrapper_target-IsTarget :
      (executable : String) (args target : List String)
      → wrapper_target lexer executable args ≡ some (some target)
      → IsTarget lexer args target
  unfolding wrapper_target or_else
  wrapper_target-IsTarget executable args target h = elim (Bool-cases (str_eq executable "env")) [
    | inl named ↦ taken (env_round lexer) (rw (named, wrapper_target) at h)
    | inr n0 ↦ elim (Bool-cases (str_eq executable "command")) [
      | inl named ↦ taken command_round (rw (n0, named, wrapper_target) at h)
      | inr n1 ↦ elim (Bool-cases (str_eq executable "exec")) [
        | inl named ↦ taken exec_round (rw (n0, n1, named, wrapper_target) at h)
        | inr n2 ↦ elim (Bool-cases (str_eq executable "nice")) [
          | inl named ↦ taken (nice_round lexer) (rw (n0, n1, n2, named, wrapper_target) at h)
          | inr n3 ↦ elim (Bool-cases (str_eq executable "timeout")) [
            | inl named ↦ timed (rw (n0, n1, n2, n3, named, wrapper_target) at h)
            | inr n4 ↦ elim (Bool-cases (str_eq executable "nohup")) [
              | inl named ↦ detached (rw (n0, n1, n2, n3, n4, named, wrapper_target) at h)
              | inr n5 ↦ elim (Bool-cases (str_eq executable "stdbuf")) [
                | inl named ↦
                    taken (stdbuf_round lexer)
                      (rw (n0, n1, n2, n3, n4, n5, named, wrapper_target) at h)
                | inr n6 ↦ elim (Bool-cases (str_eq executable "xargs")) [
                  | inl named ↦
                      taken xargs_round
                        (rw (n0, n1, n2, n3, n4, n5, n6, named, wrapper_target) at h)
                  | inr n7 ↦ no_wrapper (rw (n0, n1, n2, n3, n4, n5, n6, n7, wrapper_target) at h)
                ]
              ]
            ]
          ]
        ]
      ]
    ]
  ]
    where
      taken :
          (round : String → Option String → Round)
          → some (or_none (read_options round args)) ≡ some (some target)
          → IsTarget lexer args target
      taken round e =
          or_none-IsTarget round args (read_options round args) target refl (ap (or_else none) e)

      timed :
          some (timeout_target lexer (read_options (timeout_round lexer) args)) ≡ some (some target)
          → IsTarget lexer args target
      timed e =
          timeout_target-IsTarget (timeout_round lexer) args
            (read_options (timeout_round lexer) args) target refl (ap (or_else none) e)

      detached : some (nohup_target args) ≡ some (some target) → IsTarget lexer args target
      detached e = nohup_target-IsTarget args target (ap (or_else none) e)

      no_wrapper : none ≡ some (some target) → IsTarget lexer args target
      no_wrapper e = cc
