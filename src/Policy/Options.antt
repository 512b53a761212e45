-- ===== src/Policy/Options.antt =====
-- The option loops of agent/runtime/policy.py: what each says of one token, and the loop that they share. Those of
-- `command`, `exec` and `nice` are here.
use Prim.Native.Char.{code}
use Prim.Native.String.{String as Text}
use my_coding_agent.Base.{
  ℕ, String, Bool, true, false, not, ◌&&◌, ◌||◌, Option, none, some, List, [], ◌∷◌, contains,
  str_eq, leb, ltb, ◌==◌, if◌then◌else◌,
}
use my_coding_agent.Base.Texts.{
  starts_with, strip_prefix, text_length, drop_text, all_chars, is_empty_text,
}
use my_coding_agent.Policy.{Lexer}

-- What a round of the loop does with the token at the index: `break`, `break` behind it, go on behind it or
-- behind its value, or `return None`.
pub data Round : Type 0 where
  ends marker one two refuse : Round

-- The loop, up to `args[index:]`; a round is told the token and the one behind it.
unfoldable pub read_options : (String → Option String → Round) → List String → Option (List String)
read_options round [] = some []
read_options round (t ∷ []) = elim (round t none) [
  | Round.ends ↦ some (t ∷ [])
  | Round.marker ↦ some []
  | Round.one ↦ some []
  | Round.two ↦ some []
  | Round.refuse ↦ none
]
read_options round (t ∷ v ∷ rest) = elim (round t (some v)) [
  | Round.ends ↦ some (t ∷ v ∷ rest)
  | Round.marker ↦ some (v ∷ rest)
  | Round.one ↦ read_options round (v ∷ rest)
  | Round.two ↦ read_options round rest
  | Round.refuse ↦ none
]

-- `args[index:] or None`
abbrev pub or_none : Option (List String) → Option (List String)
or_none none = none
or_none (some []) = none
or_none (some (t ∷ ts)) = some (t ∷ ts)

-- `token.startswith("-") and token != "-"`
abbrev pub is_option : String → Bool
is_option token = starts_with "-" token && not (str_eq token "-")

abbrev pub among : String → ℕ → Bool
among Text.[] c = false
among (Text.◌∷◌ d s) c = (code d == c) || among s c

-- A token that has a value behind it, which must pass the test
abbrev pub with_value : (String → Bool) → Option String → Round
with_value test none = Round.refuse
with_value test (some value) = if test value then Round.two else Round.refuse

abbrev pub one_if : Bool → Round
one_if b = if b then Round.one else Round.refuse

abbrev pub option_else : String → Round
option_else token = if is_option token then Round.refuse else Round.ends

abbrev pub any_value : String → Bool
any_value value = true

-- `token.startswith(prefix) and len(token) > len(prefix)`
abbrev pub longer_than : String → String → Bool
longer_than prefix token = elim (strip_prefix prefix token) [
  | none ↦ false
  | some rest ↦ not (is_empty_text rest)
]

-- `token.removeprefix(prefix)` of a token that has it
abbrev pub behind : String → String → String
behind prefix token = elim (strip_prefix prefix token) [ none ↦ token | some rest ↦ rest ]

-- `_command_target`
unfoldable pub command_round : String → Option String → Round
command_round token next =
    if str_eq token "--"
    then Round.marker
    else if is_option token
    then one_if (
        contains token ("-p" ∷ "-v" ∷ "-V" ∷ [])
        || (ltb 2 (text_length token) && all_chars (among "pvV") (drop_text 1 token)))
    else Round.ends

-- `_exec_target`
unfoldable pub exec_round : String → Option String → Round
exec_round token next =
    if str_eq token "--"
    then Round.marker
    else if contains token ("-c" ∷ "-l" ∷ [])
    then Round.one
    else if ltb 2 (text_length token)
        && starts_with "-" token
        && all_chars (among "cl") (drop_text 1 token)
    then Round.one
    else if str_eq token "-a"
    then with_value any_value next
    else if longer_than "-a" token
    then Round.one
    else option_else token

module _ (lexer : Lexer) where
  abbrev pub skip_digits : String → String
  skip_digits Text.[] = Text.[]
  skip_digits (Text.◌∷◌ c s) =
      let rest = skip_digits s in if lexer.is_decimal (code c) then rest else Text.◌∷◌ c s

  abbrev pub starts_digit : String → Bool
  starts_digit Text.[] = false
  starts_digit (Text.◌∷◌ c s) = lexer.is_decimal (code c)

  abbrev is_digits : String → Bool
  is_digits s = not (is_empty_text s) && all_chars lexer.is_decimal s

  abbrev unsigned : String → String
  unsigned Text.[] = Text.[]
  unsigned (Text.◌∷◌ c s) = if among "+-" (code c) then s else Text.◌∷◌ c s

  -- `_is_nice_adjustment`
  unfoldable pub is_nice_adjustment : String → Bool
  is_nice_adjustment value = is_digits (unsigned value)

  -- `-[0-9]+`
  abbrev is_numeric_option : String → Bool
  is_numeric_option token =
      longer_than "-" token && all_chars (λ c. leb 48 c && leb c 57) (drop_text 1 token)

  -- `_nice_target`
  unfoldable pub nice_round : String → Option String → Round
  nice_round token next =
      if str_eq token "--"
      then Round.marker
      else if contains token ("-n" ∷ "--adjustment" ∷ [])
      then with_value is_nice_adjustment next
      else if starts_with "--adjustment=" token
      then one_if (is_nice_adjustment (behind "--adjustment=" token))
      else if is_numeric_option token
      then Round.one
      else if is_option token
      then one_if (longer_than "-n" token && is_nice_adjustment (drop_text 2 token))
      else Round.ends
