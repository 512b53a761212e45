-- ===== src/Policy/Prefixes.antt =====
-- The options of `timeout`, `stdbuf`, `env` and `xargs` in agent/runtime/policy.py.
use Prim.Native.Char.{code}
use Prim.Native.String.{String as Text}
use my_coding_agent.Base.{
  ℕ, String, Bool, true, false, not, ◌&&◌, ◌||◌, Option, none, some, List, [], ◌∷◌, contains,
  str_eq, leb, ◌==◌, if◌then◌else◌,
}
use my_coding_agent.Base.Texts.{
  starts_with, strip_prefix, drop_text, all_chars, is_empty_text, partition,
}
use my_coding_agent.Policy.{Lexer}
use my_coding_agent.Policy.Options.{
  Round, is_option, among, with_value, one_if, option_else, any_value, longer_than, behind,
  skip_digits, starts_digit,
}

module _ (lexer : Lexer) where
  -- The text behind `(?:\.\d+)?`
  abbrev after_fraction : String → String
  after_fraction s = elim (strip_prefix "." s) [
    | none ↦ s
    | some rest ↦ if starts_digit lexer rest then skip_digits lexer rest else s
  ]

  -- At most one of the letters, and the end
  abbrev is_unit : String → String → Bool
  is_unit letters Text.[] = true
  is_unit letters (Text.◌∷◌ c s) = among letters (code c) && is_empty_text s

  -- `_is_timeout_duration`
  unfoldable pub is_timeout_duration : String → Bool
  is_timeout_duration value =
      starts_digit lexer value && is_unit "smhd" (after_fraction (skip_digits lexer value))

  abbrev is_ascii_alnum : ℕ → Bool
  is_ascii_alnum c = (leb 48 c && leb c 57) || (leb 65 c && leb c 90) || (leb 97 c && leb c 122)

  -- `_is_timeout_signal`; the optional "SIG" is itself of letters.
  unfoldable pub is_timeout_signal : String → Bool
  is_timeout_signal value = not (is_empty_text value) && all_chars is_ascii_alnum value

  -- `_timeout_target`, up to the duration
  unfoldable pub timeout_round : String → Option String → Round
  timeout_round token next =
      if str_eq token "--"
      then Round.marker
      else if contains token ("--preserve-status" ∷ "--foreground" ∷ "--verbose" ∷ [])
      then Round.one
      else if contains token ("-k" ∷ "--kill-after" ∷ [])
      then with_value is_timeout_duration next
      else if contains token ("-s" ∷ "--signal" ∷ [])
      then with_value is_timeout_signal next
      else if starts_with "--kill-after=" token
      then one_if (is_timeout_duration (behind "--kill-after=" token))
      else if starts_with "--signal=" token
      then one_if (is_timeout_signal (behind "--signal=" token))
      else if longer_than "-k" token
      then one_if (is_timeout_duration (drop_text 2 token))
      else if longer_than "-s" token
      then one_if (is_timeout_signal (drop_text 2 token))
      else option_else token

  -- `_is_stdbuf_mode`
  unfoldable pub is_stdbuf_mode : String → Bool
  is_stdbuf_mode value =
      str_eq value "0"
      || str_eq value "L"
      || (starts_digit lexer value && is_unit "kKmMgG" (skip_digits lexer value))

  abbrev value_behind : String → String
  value_behind token = elim (partition b'=' token) [ none ↦ "" | some (name, value) ↦ value ]

  -- `_stdbuf_target`
  unfoldable pub stdbuf_round : String → Option String → Round
  stdbuf_round token next =
      if str_eq token "--"
      then Round.marker
      else if contains token ("-i" ∷ "--input" ∷ "-o" ∷ "--output" ∷ "-e" ∷ "--error" ∷ [])
      then with_value (λ value. not (is_empty_text value) && is_stdbuf_mode value) next
      else if longer_than "-i" token || longer_than "-o" token || longer_than "-e" token
      then one_if (is_stdbuf_mode (drop_text 2 token))
      else if starts_with "--input=" token
          || starts_with "--output=" token
          || starts_with "--error=" token
      then one_if (is_stdbuf_mode (value_behind token))
      else option_else token

  abbrev is_name : String → Bool
  is_name Text.[] = false
  is_name (Text.◌∷◌ c s) =
      (lexer.is_alpha (code c) || (code c == b'_'))
      && all_chars (λ d. lexer.is_alnum d || (d == b'_')) (Text.◌∷◌ c s)

  -- `_is_env_assignment`
  unfoldable pub is_env_assignment : String → Bool
  is_env_assignment token = elim (partition b'=' token) [
    | none ↦ false
    | some (name, value) ↦ is_name name
  ]

  -- `_env_target`
  unfoldable pub env_round : String → Option String → Round
  env_round token next =
      if str_eq token "--"
      then Round.marker
      else if is_env_assignment token
      then Round.one
      else if contains token ("-i" ∷ "--ignore-environment" ∷ "-0" ∷ [])
      then Round.one
      else if contains token ("-u" ∷ "--unset" ∷ [])
      then with_value any_value next
      else if starts_with "--unset=" token
      then one_if (longer_than "--unset=" token)
      else if starts_with "-" token
      then Round.refuse
      else Round.ends

abbrev xargs_values : List String
xargs_values =
    "-a" ∷ "--arg-file" ∷ "-d" ∷ "--delimiter" ∷ "-e" ∷ "-E" ∷ "--eof" ∷ "-I" ∷ "--replace" ∷ "-L"
    ∷ "--max-lines" ∷ "-n" ∷ "--max-args" ∷ "-P" ∷ "--max-procs" ∷ "-s" ∷ "--max-chars"
    ∷ "--process-slot-var" ∷ []

abbrev is_long_value : String → Bool
is_long_value token = elim (partition b'=' token) [
  | none ↦ false
  | some (option, value) ↦ contains option xargs_values && not (is_empty_text value)
]

-- `token[:2]` of a token that is longer is one of the short options.
abbrev has_short_value : String → Bool
has_short_value token =
    longer_than "-a" token
    || longer_than "-d" token
    || longer_than "-e" token
    || longer_than "-E" token
    || longer_than "-I" token
    || longer_than "-L" token
    || longer_than "-n" token
    || longer_than "-P" token
    || longer_than "-s" token

-- `_xargs_target`
unfoldable pub xargs_round : String → Option String → Round
xargs_round token next =
    if str_eq token "--"
    then Round.marker
    else if not (is_option token)
    then Round.ends
    else if contains token (
        "-0" ∷ "--null" ∷ "-r" ∷ "--no-run-if-empty" ∷ "-t" ∷ "--verbose" ∷ "-p" ∷ "--interactive"
        ∷ "-o" ∷ "--open-tty" ∷ "--show-limits" ∷ [])
    then Round.one
    else if contains token xargs_values
    then with_value any_value next
    else if starts_with "--" token
    then one_if (is_long_value token)
    else one_if (has_short_value token)
