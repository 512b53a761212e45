-- ===== src/TaskState/Resolved.antt =====
-- agent/runtime/task_state.py: the newest fact for a validation key decides whether it stands resolved.
use my_coding_agent.Base.{
  String, Bool, true, false, Option, none, some, List, [], ◌∷◌, ◌≡◌, refl, ap, ◌∙◌, arith, contains,
  str_eq, eq_iff, if◌then◌else◌,
}
use my_coding_agent.Base.Dict
use my_coding_agent.Base.Dict.{Dict, lookup-insert, HasDistinctKeys, HasDistinctKeys-insert}
use my_coding_agent.TaskState.{
  Evidence, Folding, validation_key, is_success, filed, latest_from, successful,
  resolved_validation_keys,
}

module _ (folding : Folding) where
  abbrev has_key : String → Option String → Bool
  has_key key none = false
  has_key key (some k) = str_eq k key

  abbrev or_else : Option Evidence → Option Evidence → Option Evidence
  or_else (some e) other = some e
  or_else none other = other

  -- The newest evidence with the key
  abbrev pub newest : String → List Evidence → Option Evidence
  newest key [] = none
  newest key (e ∷ es) =
      or_else (newest key es) (if has_key key (validation_key folding e) then some e else none)

  abbrev pub succeeds : Option Evidence → Bool
  succeeds none = false
  succeeds (some e) = is_success folding e

  lookup-filed :
      (key : String) (o : Option String) (e : Evidence) (d : Dict Evidence)
      → Dict.lookup key (filed folding o e d)
        ≡ (if has_key key o then some e else Dict.lookup key d)
  lookup-filed key none e d = refl
  lookup-filed key (some k) e d = lookup-insert k key e d

  lookup-latest_from :
      (key : String) (d : Dict Evidence) (es : List Evidence)
      → Dict.lookup key (latest_from folding d es) ≡ or_else (newest key es) (Dict.lookup key d)
  unfolding latest_from
  lookup-latest_from key d [] = refl
  lookup-latest_from key d (e ∷ es) =
      lookup-latest_from key (filed folding (validation_key folding e) e d) es
      ∙ ap (or_else (newest key es)) (lookup-filed key (validation_key folding e) e d)
      ∙ joined (newest key es) (has_key key (validation_key folding e))
    where
      joined :
          (o : Option Evidence) (b : Bool)
          → or_else o (if b then some e else Dict.lookup key d)
            ≡ or_else (or_else o (if b then some e else none)) (Dict.lookup key d)
      joined (some x) b = refl
      joined none true = refl
      joined none false = refl

  HasDistinctKeys-filed :
      (o : Option String) (e : Evidence) (d : Dict Evidence)
      → HasDistinctKeys d
      → HasDistinctKeys (filed folding o e d)
  HasDistinctKeys-filed none e d h = h
  HasDistinctKeys-filed (some k) e d h = HasDistinctKeys-insert k e d h

  HasDistinctKeys-latest_from :
      (d : Dict Evidence) (es : List Evidence)
      → HasDistinctKeys d
      → HasDistinctKeys (latest_from folding d es)
  unfolding latest_from
  HasDistinctKeys-latest_from d [] h = h
  HasDistinctKeys-latest_from d (e ∷ es) h =
      HasDistinctKeys-latest_from (filed folding (validation_key folding e) e d) es
        (HasDistinctKeys-filed (validation_key folding e) e d h)

  contains-successful :
      (key : String) (d : Dict Evidence)
      → HasDistinctKeys d
      → contains key (successful folding d) ≡ succeeds (Dict.lookup key d)
  unfolding Dict.lookup
  contains-successful key [] h = refl
  contains-successful key ((k, e) ∷ d) h =
      ground (arith, contains-successful key d h.1, h.0, eq_iff k key, eq_iff key k)

  -- A validation key stands resolved exactly when the newest evidence with that key is a success.
  pub resolved_validation_keys_lem :
      (key : String) (es : List Evidence)
      → contains key (resolved_validation_keys folding es) ≡ succeeds (newest key es)
  unfolding resolved_validation_keys Dict.lookup
  resolved_validation_keys_lem key es =
      contains-successful key (latest_from folding [] es) (HasDistinctKeys-latest_from [] es tt)
      ∙ ap succeeds (lookup-latest_from key [] es ∙ last (newest key es))
    where
      last : (o : Option Evidence) → or_else o (Dict.lookup key []) ≡ o
      last none = refl
      last (some e) = refl
