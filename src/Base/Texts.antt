-- ===== src/Base/Texts.antt =====
-- Texts, character by character: the operations of Python's `str` that the components share.
use Prim.Native.Nat.{ℕ, suc, zero, ◌/◌, ◌%◌}
use Prim.Native.Char.{Char, code}
use Prim.Native.String.{String, String as Text, ◌++◌ as append_text}
use mathlib.Core.Bool.{Bool, true, false, ◌&&◌, ◌||◌}
use mathlib.Core.Option.{Option, none, some}
use mathlib.Core.List.{List, [], ◌∷◌}
use my_coding_agent.Base.Tests.{leb, ltb, ◌==◌, is_some, if◌then◌else◌}

-- A character that `str.strip` removes
pub is_space : ℕ → Bool
is_space c =
    (leb 9 c && leb c 13)
    || (leb 28 c && leb c 32)
    || (c == 133)
    || (c == 160)
    || (c == 5760)
    || (leb 8192 c && leb c 8202)
    || (c == 8232)
    || (c == 8233)
    || (c == 8239)
    || (c == 8287)
    || (c == 12288)

-- `not text.strip()`
unfoldable pub is_blank : String → Bool
unfolding is_space
is_blank Text.[] = true
is_blank (Text.◌∷◌ c s) = is_space (code c) && is_blank s

-- `len(text)`
abbrev pub text_length : String → ℕ
text_length Text.[] = 0
text_length (Text.◌∷◌ c s) = suc (text_length s)

-- The text behind a prefix
abbrev pub strip_prefix : String → String → Option String
strip_prefix Text.[] s = some s
strip_prefix (Text.◌∷◌ c p) Text.[] = none
strip_prefix (Text.◌∷◌ c p) (Text.◌∷◌ d s) =
    let rest = strip_prefix p s in if code c == code d then rest else none

abbrev pub starts_with : String → String → Bool
starts_with p s = is_some (strip_prefix p s)

-- `text[n:]`
abbrev pub drop_text : ℕ → String → String
drop_text zero s = s
drop_text (suc n) Text.[] = Text.[]
drop_text (suc n) (Text.◌∷◌ c s) = drop_text n s

-- `all(test(character) for character in text)` and `any`
abbrev pub all_chars : (ℕ → Bool) → String → Bool
all_chars test Text.[] = true
all_chars test (Text.◌∷◌ c s) = test (code c) && all_chars test s

abbrev pub has_char : (ℕ → Bool) → String → Bool
has_char test Text.[] = false
has_char test (Text.◌∷◌ c s) = test (code c) || has_char test s

abbrev pub is_empty_text : String → Bool
is_empty_text Text.[] = true
is_empty_text (Text.◌∷◌ _ _) = false

-- `text.partition(separator)`, where the separator occurs
abbrev pub partition : ℕ → String → Option (String × String)
partition separator Text.[] = none
partition separator (Text.◌∷◌ c s) =
    if code c == separator then some (Text.[], s) else (elim (partition separator s) [
      | none ↦ none
      | some (before, after) ↦ some (Text.◌∷◌ c before, after)
    ])

-- `text.rsplit(separator, 1)[-1]`
abbrev pub last_part : ℕ → String → String
last_part separator Text.[] = Text.[]
last_part separator (Text.◌∷◌ c s) =
    let rest = last_part separator s in
    if has_char (λ d. d == separator) s
    then rest
    else if code c == separator
    then s
    else Text.◌∷◌ c s

abbrev put_char : Char → List String → List String
put_char c [] = Text.◌∷◌ c Text.[] ∷ []
put_char c (word ∷ words) = Text.◌∷◌ c word ∷ words

-- The pieces of a text between characters of white space, some of them empty
unfoldable pub pieces : String → List String
pieces Text.[] = []
pieces (Text.◌∷◌ c s) =
    let rest = pieces s in if is_space (code c) then Text.[] ∷ rest else put_char c rest

abbrev digits : List String
digits = "0" ∷ "1" ∷ "2" ∷ "3" ∷ "4" ∷ "5" ∷ "6" ∷ "7" ∷ "8" ∷ "9" ∷ []

abbrev digit_from : List String → ℕ → String
digit_from [] n = "0"
digit_from (d ∷ ds) zero = d
digit_from (d ∷ ds) (suc n) = digit_from ds n

abbrev decimal_on : ℕ → ℕ → String
decimal_on zero n = digit_from digits n
decimal_on (suc fuel) n = elim (ltb n 10) [
  | true ↦ digit_from digits n
  | false ↦ append_text (decimal_on fuel (n / 10)) (digit_from digits (n % 10))
]

-- `str(n)`: a number has no more digits than its value and one.
unfoldable pub decimal : ℕ → String
decimal n = decimal_on n n
