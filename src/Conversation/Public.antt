-- ===== src/Conversation/Public.antt =====
-- The public transcript: `json_safe` and `public_message` of agent/runtime/events.py, and
-- `Conversation.public_messages`.
use my_coding_agent.Base.{
  String, ◌≡◌, ◌≢◌, refl, Bool, true, false, not, ◌||◌, Option, none, some, List, [], ◌∷◌, arith,
  any, str_eq, if◌then◌else◌,
}
use my_coding_agent.Messages.{
  Json, Items, Fields, Role, Block, text_block, reasoning_block, call_block, result_block, ToolCall,
  ToolResultBlock, Message, is_error,
}
use my_coding_agent.Conversation.{Conversation}
use my_coding_agent.History.Units.{call_ids_of, result_ids_of}

-- `math.isfinite`, on the text of a float
abbrev pub is_finite : String → Bool
is_finite s = not (str_eq s "nan" || str_eq s "inf" || str_eq s "-inf")

unfoldable mutual
  pub json_safe : Json → Json
  json_safe Json.null = Json.null
  json_safe (Json.boolean b) = Json.boolean b
  json_safe (Json.integer n) = Json.integer n
  json_safe (Json.negative n) = Json.negative n
  json_safe (Json.float s) = if is_finite s then Json.float s else Json.null
  json_safe (Json.text s) = Json.text s
  json_safe (Json.array xs) = Json.array (json_safe_items xs)
  json_safe (Json.object fs) = Json.object (json_safe_fields fs)

  pub json_safe_items : Items → Items
  json_safe_items Items.nil = Items.nil
  json_safe_items (Items.cons x xs) = Items.cons (json_safe x) (json_safe_items xs)

  pub json_safe_fields : Fields → Fields
  json_safe_fields Fields.end = Fields.end
  json_safe_fields (Fields.field k v fs) = Fields.field k (json_safe v) (json_safe_fields fs)

-- No value that is left is a float without a JSON form.
abbrev mutual
  pub AllFinite : Json → Type 0
  AllFinite Json.null = Unit
  AllFinite (Json.boolean b) = Unit
  AllFinite (Json.integer n) = Unit
  AllFinite (Json.negative n) = Unit
  AllFinite (Json.float s) = is_finite s ≡ true
  AllFinite (Json.text s) = Unit
  AllFinite (Json.array xs) = AllFiniteItems xs
  AllFinite (Json.object fs) = AllFiniteFields fs

  pub AllFiniteItems : Items → Type 0
  AllFiniteItems Items.nil = Unit
  AllFiniteItems (Items.cons x xs) = AllFinite x × AllFiniteItems xs

  pub AllFiniteFields : Fields → Type 0
  AllFiniteFields Fields.end = Unit
  AllFiniteFields (Fields.field k v fs) = AllFinite v × AllFiniteFields fs

float-AllFinite : (s : String) → AllFinite (if is_finite s then Json.float s else Json.null)
float-AllFinite s = go (is_finite s) refl
  where
    go : (b : Bool) → is_finite s ≡ b → AllFinite (if b then Json.float s else Json.null)
    go true e = e
    go false e = tt

mutual
  unfolding json_safe

  safe_value : (j : Json) → AllFinite (json_safe j)
  safe_value Json.null = tt
  safe_value (Json.boolean b) = tt
  safe_value (Json.integer n) = tt
  safe_value (Json.negative n) = tt
  safe_value (Json.float s) = float-AllFinite s
  safe_value (Json.text s) = tt
  safe_value (Json.array xs) = safe_items xs
  safe_value (Json.object fs) = safe_fields fs

  safe_items : (xs : Items) → AllFiniteItems (json_safe_items xs)
  safe_items Items.nil = tt
  safe_items (Items.cons x xs) = (safe_value x, safe_items xs)

  safe_fields : (fs : Fields) → AllFiniteFields (json_safe_fields fs)
  safe_fields Fields.end = tt
  safe_fields (Fields.field k v fs) = (safe_value v, safe_fields fs)

-- No float that is not finite is left at any depth of a copied value.
pub json_safe-AllFinite : (j : Json) → AllFinite (json_safe j)
json_safe-AllFinite j = safe_value j

pub data PublicBlock : Type 0 where
  text : String → PublicBlock
  tool_call : ToolCall → PublicBlock
  tool_result : ToolResultBlock → Bool → PublicBlock

pub record PublicMessage : Type 0 where
  pub role : Role
  pub content : List PublicBlock

abbrev pub is_call : Block → Bool
is_call (call_block _) = true
is_call _ = false

abbrev safe_arguments : Option Fields → Option Fields
safe_arguments none = none
safe_arguments (some fs) = some (json_safe_fields fs)

-- The loop over the blocks, for a message with or without tool calls.
unfoldable pub public_content : Bool → List Block → List PublicBlock
public_content has_call [] = []
public_content has_call (reasoning_block _ ∷ bs) = public_content has_call bs
public_content has_call (text_block s ∷ bs) =
    let rest = public_content has_call bs in if not has_call then text s ∷ rest else rest
public_content has_call (call_block c ∷ bs) =
    tool_call (record c { arguments = safe_arguments c.arguments }) ∷ public_content has_call bs
public_content has_call (result_block r ∷ bs) =
    tool_result (record r { metadata = json_safe_fields r.metadata }) (not (is_error r))
    ∷ public_content has_call bs

-- A system message has no public form.
pub visible : Role → List PublicBlock → Option PublicMessage
visible Role.system content = none
visible role content = some (record { role = role; content = content })

unfoldable pub public_message : Message → Option PublicMessage
unfolding public_content visible
public_message m = visible m.role (public_content (any is_call m.content) m.content)

unfoldable pub public_messages : Conversation → List PublicMessage
public_messages [] = []
public_messages (m ∷ ms) = elim (public_message m) [
  | none ↦ public_messages ms
  | some p ↦ p ∷ public_messages ms
]

abbrev pub public_calls : List PublicBlock → List String
public_calls [] = []
public_calls (tool_call c ∷ bs) = c.id ∷ public_calls bs
public_calls (text _ ∷ bs) = public_calls bs
public_calls (tool_result _ _ ∷ bs) = public_calls bs

abbrev pub public_results : List PublicBlock → List String
public_results [] = []
public_results (tool_result r _ ∷ bs) = r.tool_call_id ∷ public_results bs
public_results (text _ ∷ bs) = public_results bs
public_results (tool_call _ ∷ bs) = public_results bs

abbrev pub public_texts : List PublicBlock → List String
public_texts [] = []
public_texts (text s ∷ bs) = s ∷ public_texts bs
public_texts (tool_call _ ∷ bs) = public_texts bs
public_texts (tool_result _ _ ∷ bs) = public_texts bs

abbrev pub texts : List Block → List String
texts [] = []
texts (text_block s ∷ bs) = s ∷ texts bs
texts (reasoning_block _ ∷ bs) = texts bs
texts (call_block _ ∷ bs) = texts bs
texts (result_block _ ∷ bs) = texts bs

public_calls-content :
    (h : Bool) (bs : List Block) → public_calls (public_content h bs) ≡ call_ids_of bs
unfolding public_content call_ids_of
public_calls-content h [] = refl
public_calls-content h (b ∷ bs) = ground (arith, public_calls-content h bs)

public_results-content :
    (h : Bool) (bs : List Block) → public_results (public_content h bs) ≡ result_ids_of bs
unfolding public_content result_ids_of
public_results-content h [] = refl
public_results-content h (b ∷ bs) = ground (arith, public_results-content h bs)

public_texts-content :
    (h : Bool) (bs : List Block) → public_texts (public_content h bs) ≡ (if h then [] else texts bs)
unfolding public_content
public_texts-content h [] = ground arith
public_texts-content h (b ∷ bs) = ground (arith, public_texts-content h bs)

-- What the public form of a message shows; reasoning has no public form.
pub record Shows (m : Message) (p : PublicMessage) : Type 0 where
  pub role : p.role ≡ m.role
  pub calls : public_calls p.content ≡ call_ids_of m.content
  pub results : public_results p.content ≡ result_ids_of m.content
  pub texts : public_texts p.content ≡ (if any is_call m.content then [] else texts m.content)

-- A message that has a public form is not a system message, and its public form has its role and
-- shows its calls and results in order, and its texts exactly when it requests no tool.
pub public_message-Shows :
    (m : Message) (p : PublicMessage)
    → public_message m ≡ some p
    → Shows m p × (m.role ≢ Role.system)
unfolding public_message
public_message-Shows m p h = ground (
  arith,
  public_calls-content (any is_call m.content) m.content,
  public_results-content (any is_call m.content) m.content,
  public_texts-content (any is_call m.content) m.content,
)
