-- ===== src/Base/Sets.antt =====
-- Sets of texts, kept as lists: membership and what the set operations do to it.
use Prim.Native.String.{String}
use mathlib.Core.Path.{◌≡◌, refl}
use mathlib.Core.Bool.{Bool, true, false, not, ◌||◌}
use mathlib.Core.List.{List, [], ◌∷◌, ◌++◌}
use native.Mathlib.Omega.{arith}
use text.Mathlib.TextEquality.{eq_iff}
use my_coding_agent.Base.Tests.{str_eq}
use my_coding_agent.Base.Lists.{filter, is_empty}

-- `value in values`
abbrev pub contains : String → List String → Bool
contains a [] = false
contains a (x ∷ xs) = str_eq x a || contains a xs

-- The elements of the first set that are in the second, and those that are not.
abbrev pub intersection : List String → List String → List String
intersection xs ys = filter (λ x. contains x ys) xs

abbrev pub difference : List String → List String → List String
difference xs ys = filter (λ x. not (contains x ys)) xs

pub contains-filter :
    (a : String) (p : String → Bool) (xs : List String)
    → contains a (filter p xs) ≡ true
    → contains a xs ≡ true
contains-filter a p [] h = h
contains-filter a p (x ∷ xs) h = ground (arith, contains-filter a p xs)

pub contains-filter-false :
    (a : String) (p : String → Bool) (xs : List String)
    → contains a xs ≡ false
    → contains a (filter p xs) ≡ false
contains-filter-false a p xs h = ground (arith, contains-filter a p xs)

-- What is in the list and passes the test is kept.
pub contains-filter_of :
    (a : String) (p : String → Bool) (xs : List String)
    → contains a xs ≡ true
    → p a ≡ true
    → contains a (filter p xs) ≡ true
contains-filter_of a p [] h k = h
contains-filter_of a p (x ∷ xs) h k = ground (arith, contains-filter_of a p xs, eq_iff x a)

pub contains-append :
    (a : String) (xs ys : List String) → contains a (xs ++ ys) ≡ (contains a xs || contains a ys)
contains-append a [] ys = refl
contains-append a (x ∷ xs) ys = ground (arith, contains-append a xs ys)

pub contains-ne-empty : (a : String) (xs : List String) → contains a xs ≡ true → is_empty xs ≡ false
contains-ne-empty a [] h = cc
contains-ne-empty a (x ∷ xs) h = refl

pub contains_self : (a : String) (xs : List String) → contains a (a ∷ xs) ≡ true
contains_self a xs = ground (arith, eq_iff a a)
