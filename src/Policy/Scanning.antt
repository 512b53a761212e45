-- ===== src/Policy/Scanning.antt =====
-- The scan of agent/runtime/policy.py against a description without state: the parts of a command that stand
-- outside quotes, in double quotes, and in single quotes.
use Prim.Native.Char.{Char, code}
use Prim.Native.String.{String as Text, char_at}
use my_coding_agent.Base.{
  ℕ, String, Bool, true, false, not, ◌&&◌, ◌||◌, ◌≡◌, refl, ap, arith, ◌==◌, List, [], ◌∷◌, any,
}
use my_coding_agent.Base.Texts.{all_chars}
use my_coding_agent.Policy.Shell.{is_control, scan, contains_shell_control}

-- A character that changes no state of the scan
abbrev pub is_inert : ℕ → Bool
is_inert c = not (c == b'\'') && not (c == b'"') && not (c == 92)

-- The operators that the scan looks for; `|` stands for `||` too.
abbrev pub operators : List String
operators = ";" ∷ "|" ∷ "<" ∷ ">" ∷ "&&" ∷ "`" ∷ "$(" ∷ []

abbrev pub begins : String → String → Bool
begins Text.[] s = true
begins (Text.◌∷◌ c p) Text.[] = false
begins (Text.◌∷◌ c p) (Text.◌∷◌ d s) = (code d == code c) && begins p s

-- Somewhere in the text one of the operators begins.
abbrev pub has_control : String → Bool
has_control Text.[] = false
has_control (Text.◌∷◌ c s) = any (λ o. begins o (Text.◌∷◌ c s)) operators || has_control s

is_control-operators :
    (c : Char) (s : String)
    → is_control false false (code c) s ≡ any (λ o. begins o (Text.◌∷◌ c s)) operators
is_control-operators c Text.[] = ground arith
is_control-operators c (Text.◌∷◌ d s) = ground arith

scan-has_control :
    (source : String)
    → all_chars is_inert source ≡ true
    → scan false false false source ≡ has_control source
unfolding scan
scan-has_control Text.[] h = refl
scan-has_control (Text.◌∷◌ c s) h =
    let (a, b, d, rest) = split_inert (code c) (all_chars is_inert s) h in
    rw (a, b, d, is_control-operators c s)
      (ap (λ r. any (λ o. begins o (Text.◌∷◌ c s)) operators || r) (scan-has_control s rest))
  where
    split_inert :
        (n : ℕ) (r : Bool)
        → (is_inert n && r) ≡ true
        → ((n == b'\'') ≡ false) × ((n == b'"') ≡ false) × ((n == 92) ≡ false) × (r ≡ true)
    split_inert n r h = ground arith

-- A single quotation mark
abbrev pub quote : Char
quote = char_at "'" 0

-- The text behind a quotation mark, up to the next one, and what follows
abbrev pub quoted_then : String → String → String
quoted_then Text.[] rest = Text.◌∷◌ quote rest
quoted_then (Text.◌∷◌ c s) rest = Text.◌∷◌ c (quoted_then s rest)

scan-quoted_then :
    (body rest : String)
    → all_chars (λ c. not (c == b'\'')) body ≡ true
    → scan true false false (quoted_then body rest) ≡ scan false false false rest
unfolding scan
scan-quoted_then Text.[] rest h = refl
scan-quoted_then (Text.◌∷◌ c s) rest h =
    let (a, more) = split_quote (code c) (all_chars (λ d. not (d == b'\'')) s) h in
    rw (a, and_false (code c == b'"'), and_false (code c == 92)) (scan-quoted_then s rest more)
  where
    and_false : (b : Bool) → (b && false) ≡ false
    and_false true = refl
    and_false false = refl

    split_quote :
        (n : ℕ) (r : Bool) → (not (n == b'\'') && r) ≡ true → ((n == b'\'') ≡ false) × (r ≡ true)
    split_quote n r h = ground arith

-- In a text without quotes and backslashes the scan answers yes exactly if one of ; | < > && a
-- backquote or a dollar with an opening parenthesis begins somewhere in it, so that a lone & and a
-- line feed are not found; and what stands between single quotes at the start of a text does not
-- count.
pub contains_shell_control_lem :
    (plain body rest : String)
    → all_chars is_inert plain ≡ true
    → all_chars (λ c. not (c == b'\'')) body ≡ true
    → (contains_shell_control plain ≡ has_control plain)
      × (contains_shell_control (Text.◌∷◌ quote (quoted_then body rest))
          ≡ contains_shell_control rest)
unfolding contains_shell_control scan
contains_shell_control_lem plain body rest h k =
    (scan-has_control plain h, scan-quoted_then body rest k)
