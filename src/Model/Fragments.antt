-- ===== src/Model/Fragments.antt =====
-- agent/runtime/message_assembler.py: what the assembler has collected of a stream, against the stream itself.
use my_coding_agent.Base.{
  ℕ, String, Bool, true, false, Option, none, some, List, [], ◌∷◌, ◌++◌, append-nil, append_assoc,
  ◌≡◌, refl, sym, ap, ◌∙◌, arith, ◌==◌, if◌then◌else◌,
}
use my_coding_agent.Events.Emitter.{
  ModelEvent, text_delta, reasoning_delta, tool_call_delta, message_end, error_event,
}
use my_coding_agent.Model.{
  CallState, MessageAssembler, Checked, parsed, refused, call_at, put_call, call_or_new, given,
  differs, with_arguments, set_name, set_id, file_id, and_then, updated_call, add_tool_call,
  after_end, index_changed_name, index_changed_id,
}

-- The texts of the text deltas, in order
abbrev pub text_deltas : List ModelEvent → List String
text_deltas [] = []
text_deltas (text_delta t ∷ es) = t ∷ text_deltas es
text_deltas (reasoning_delta t ∷ es) = text_deltas es
text_deltas (tool_call_delta i c n d ∷ es) = text_deltas es
text_deltas (message_end r u ∷ es) = text_deltas es
text_deltas (error_event m c r ∷ es) = text_deltas es

abbrev pub reasonings : List ModelEvent → List String
reasonings [] = []
reasonings (text_delta t ∷ es) = reasonings es
reasonings (reasoning_delta t ∷ es) = t ∷ reasonings es
reasonings (tool_call_delta i c n d ∷ es) = reasonings es
reasonings (message_end r u ∷ es) = reasonings es
reasonings (error_event m c r ∷ es) = reasonings es

abbrev pub delta_onto : Option String → List String → List String
delta_onto none ds = ds
delta_onto (some d) ds = d ∷ ds

-- The fragments of the arguments of one call, in order
abbrev pub deltas : ℕ → List ModelEvent → List String
deltas index [] = []
deltas index (text_delta t ∷ es) = deltas index es
deltas index (reasoning_delta t ∷ es) = deltas index es
deltas index (tool_call_delta i c n d ∷ es) =
    let rest = deltas index es in if i == index then delta_onto d rest else rest
deltas index (message_end r u ∷ es) = deltas index es
deltas index (error_event m c r ∷ es) = deltas index es

abbrev pub arguments_at : ℕ → List (ℕ × CallState) → List String
arguments_at index calls = (call_or_new (call_at index calls)).arguments

-- What is added to what an assembler holds
pub record Collects (index : ℕ) (a b : MessageAssembler) (es : List ModelEvent) : Type 0 where
  pub text : b.text ≡ a.text ++ text_deltas es
  pub reasoning : b.reasoning ≡ a.reasoning ++ reasonings es
  pub arguments :
      arguments_at index b.tool_calls ≡ arguments_at index a.tool_calls ++ deltas index es

pub parsed_injective : {A : Type 0} (x y : A) → parsed x ≡ parsed y → x ≡ y
parsed_injective {A} x y e = ap (value_or x) e
  where
    value_or : A → Checked A → A
    value_or default (parsed z) = z
    value_or default (refused r) = default

pub and_then_parts :
    {A B : Type 0} (x : Checked A) (f : A → Checked B) (b : B)
    → and_then x f ≡ parsed b
    → (y : A) × (x ≡ parsed y) × (f y ≡ parsed b)
and_then_parts (parsed y) f b e = (y, refl, e)
and_then_parts {A} (refused r) f b e = failed e
  where
    failed :
        refused r ≡ parsed b
        → (y : A) × (◌≡◌ {A = Checked A} (refused r) (parsed y)) × (f y ≡ parsed b)
    failed k = cc

pub call_at-put_call :
    (i j : ℕ) (s : CallState) (calls : List (ℕ × CallState))
    → call_at j (put_call i s calls) ≡ (if i == j then some s else call_at j calls)
unfolding call_at put_call
call_at-put_call i j s [] = refl
call_at-put_call i j s ((k, c) ∷ calls) = ground (arith, call_at-put_call i j s calls)

set_id-arguments :
    (index : ℕ) (id : Option String) (s t : CallState)
    → set_id index id s ≡ parsed t
    → t.arguments ≡ s.arguments
set_id-arguments index none s t e = sym (ap (λ x. x.arguments) (parsed_injective s t e))
set_id-arguments index (some id) s t e = by_test (differs s.id id) e
  where
    by_test :
        (b : Bool)
        → (if b then refused (index_changed_id index) else parsed (record s { id = some id }))
          ≡ parsed t
        → t.arguments ≡ s.arguments
    by_test true k = cc
    by_test false k = sym (ap (λ x. x.arguments) (parsed_injective (record s { id = some id }) t k))

set_name-arguments :
    (index : ℕ) (name : Option String) (s t : CallState)
    → set_name index name s ≡ parsed t
    → t.arguments ≡ s.arguments
set_name-arguments index none s t e = sym (ap (λ x. x.arguments) (parsed_injective s t e))
set_name-arguments index (some name) s t e = by_test (differs s.name name) e
  where
    by_test :
        (b : Bool)
        → (if b then refused (index_changed_name index) else parsed (record s { name = some name }))
          ≡ parsed t
        → t.arguments ≡ s.arguments
    by_test true k = cc
    by_test false k =
        sym (ap (λ x. x.arguments) (parsed_injective (record s { name = some name }) t k))

with_arguments_lem :
    (delta : Option String) (s : CallState)
    → (with_arguments delta s).arguments ≡ s.arguments ++ delta_onto delta []
with_arguments_lem none s = sym (append-nil s.arguments)
with_arguments_lem (some d) s = refl

updated_call-arguments :
    (index : ℕ) (id name delta : Option String) (s t : CallState)
    → updated_call index id name delta s ≡ parsed t
    → t.arguments ≡ s.arguments ++ delta_onto delta []
updated_call-arguments index id name delta s t e =
    let (s1, e1, next) = and_then_parts (set_id index id s) _ t e in
    let (s2, e2, last) = and_then_parts (set_name index name s1) _ t next in
    sym (ap (λ x. x.arguments) (parsed_injective (with_arguments delta s2) t last))
    ∙ with_arguments_lem delta s2
    ∙ ap (λ xs. xs ++ delta_onto delta [])
        (set_name-arguments index name s1 s2 e2 ∙ set_id-arguments index id s s1 e1)

put_call-arguments_at :
    (i j : ℕ) (s : CallState) (calls : List (ℕ × CallState)) (ds : List String)
    → s.arguments ≡ arguments_at i calls ++ ds
    → arguments_at j (put_call i s calls) ≡ arguments_at j calls ++ (if i == j then ds else [])
put_call-arguments_at i j s calls ds e =
    ap (λ o. (call_or_new o).arguments) (call_at-put_call i j s calls)
    ∙ by_test (i == j) (ground arith)
  where
    by_test :
        (same : Bool)
        → (same ≡ true → i ≡ j)
        → (call_or_new (if same then some s else call_at j calls)).arguments
          ≡ arguments_at j calls ++ (if same then ds else [])
    by_test true k = e ∙ ap (λ n. arguments_at n calls ++ ds) (k refl)
    by_test false k = sym (append-nil (arguments_at j calls))

pub add_tool_call-Collects :
    (j index : ℕ) (id name delta : Option String) (a b : MessageAssembler)
    → add_tool_call index id name delta a ≡ parsed b
    → Collects j a b (tool_call_delta index id name delta ∷ [])
unfolding add_tool_call
add_tool_call-Collects j index id name delta a b e =
    let (ids, e1, next) = and_then_parts (file_id index (given id) a.ids) _ b e in
    let (s, e2, last) =
      and_then_parts
        (updated_call index (given id) (given name) delta
          (call_or_new (call_at index a.tool_calls)))
        _ b next in
    let made = parsed_injective _ b last in
    record {
      text = sym (ap (λ x. x.text) made) ∙ sym (append-nil a.text);
      reasoning = sym (ap (λ x. x.reasoning) made) ∙ sym (append-nil a.reasoning);
      arguments =
          sym (ap (λ x. arguments_at j x.tool_calls) made)
          ∙ put_call-arguments_at index j s a.tool_calls (delta_onto delta []) (
              updated_call-arguments index (given id) (given name) delta
                (call_or_new (call_at index a.tool_calls)) s e2);
    }

-- An assembler that has taken an event was open.
pub add_open_of :
    (done : Bool) (x : Checked MessageAssembler) (b : MessageAssembler)
    → (if done then refused after_end else x) ≡ parsed b
    → x ≡ parsed b
add_open_of true x b e = cc
add_open_of false x b e = e

-- Two additions, one behind the other
pub joins :
    (x y z ds es all_of : List String)
    → y ≡ x ++ ds
    → z ≡ y ++ es
    → all_of ≡ ds ++ es
    → z ≡ x ++ all_of
joins x y z ds es all_of e f g =
    f ∙ ap (λ ts. ts ++ es) e ∙ append_assoc x ds es ∙ sym (ap (λ ts. x ++ ts) g)

pub text_deltas-append :
    (es fs : List ModelEvent) → text_deltas (es ++ fs) ≡ text_deltas es ++ text_deltas fs
text_deltas-append [] fs = refl
text_deltas-append (text_delta t ∷ es) fs = ap (λ ts. t ∷ ts) (text_deltas-append es fs)
text_deltas-append (reasoning_delta t ∷ es) fs = text_deltas-append es fs
text_deltas-append (tool_call_delta i c n d ∷ es) fs = text_deltas-append es fs
text_deltas-append (message_end r u ∷ es) fs = text_deltas-append es fs
text_deltas-append (error_event m c r ∷ es) fs = text_deltas-append es fs

pub reasonings-append :
    (es fs : List ModelEvent) → reasonings (es ++ fs) ≡ reasonings es ++ reasonings fs
reasonings-append [] fs = refl
reasonings-append (text_delta t ∷ es) fs = reasonings-append es fs
reasonings-append (reasoning_delta t ∷ es) fs = ap (λ ts. t ∷ ts) (reasonings-append es fs)
reasonings-append (tool_call_delta i c n d ∷ es) fs = reasonings-append es fs
reasonings-append (message_end r u ∷ es) fs = reasonings-append es fs
reasonings-append (error_event m c r ∷ es) fs = reasonings-append es fs
