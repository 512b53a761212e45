-- ===== src/Conversation/Validity.antt =====
-- Conversations stay well formed: a leading system message, and only the blocks that each role
-- may have.
use my_coding_agent.Base.{
  subst, sym, String, ◌≡◌, refl, true, Option, some, List, [], ◌∷◌, ◌++◌, arith, All, All-append,
  all,
}
use mathlib.Core.Option.{some-injective}
use my_coding_agent.Messages.{
  Role, Block, Message, ToolResultBlock, BoundValues, is_allowed, make_message,
}
use my_coding_agent.Conversation.{
  Conversation, from_messages, append_user, append_assistant, append_tool_result,
  append_interrupted_tool_results,
}
use my_coding_agent.Conversation.Closing.{closing_messages, append_interrupted_tool_results_lem}

abbrev pub IsValidMessage : Message → Type 0
IsValidMessage m = all (is_allowed m.role) m.content ≡ true

abbrev pub StartsWithSystem : Conversation → Type 0
StartsWithSystem [] = ⊥
StartsWithSystem (m ∷ ms) = m.role ≡ Role.system

pub record IsValid (c : Conversation) : Type 0 where
  pub leading : StartsWithSystem c
  pub blocks : All IsValidMessage c

-- What the constructor accepts is well formed, and as it was given.
pub make_message-IsValid :
    (role : Role) (content : List Block) (m : Message)
    → make_message role content ≡ some m
    → IsValidMessage m × (m.role ≡ role) × (m.content ≡ content)
unfolding make_message
make_message-IsValid role content m h = ground arith

-- The calls of a conversation's methods that change it; the appended assistant message has passed
-- the validation of its constructor.
pub data Update : Type 0 where
  user : String → Update
  assistant : (m : Message) → IsValidMessage m → Update
  result : ToolResultBlock → Update
  interrupted : Update

unfoldable pub update : BoundValues → Update → Conversation → Option Conversation
update bound (user text) c = some (append_user text c)
update bound (assistant m v) c = append_assistant m c
update bound (result r) c = some (append_tool_result bound r c)
update bound interrupted c = some (append_interrupted_tool_results bound c).0

StartsWithSystem-append : (c d : Conversation) → StartsWithSystem c → StartsWithSystem (c ++ d)
StartsWithSystem-append [] d h = elim h [ ]
StartsWithSystem-append (m ∷ c) d h = h

IsValid-append : (c d : Conversation) → IsValid c → All IsValidMessage d → IsValid (c ++ d)
IsValid-append c d v h = record {
  leading = StartsWithSystem-append c d v.leading;
  blocks = All-append IsValidMessage c d v.blocks h;
}

closing_messages-valid :
    (bound : BoundValues) (ids : List String) → All IsValidMessage (closing_messages bound ids)
closing_messages-valid bound [] = tt
closing_messages-valid bound (a ∷ ids) = (refl, closing_messages-valid bound ids)

append_assistant-IsValid :
    (m : Message) (c d : Conversation)
    → IsValid c
    → IsValidMessage m
    → append_assistant m c ≡ some d
    → IsValid d
unfolding append_assistant
append_assistant-IsValid m c d v h e =
    let same : c ++ (m ∷ []) ≡ d = ground arith in
    subst IsValid same (IsValid-append c (m ∷ []) v (h, tt))

-- Every method call that does not raise keeps a conversation well formed.
pub update-IsValid :
    (bound : BoundValues) (u : Update) (c d : Conversation)
    → IsValid c
    → update bound u c ≡ some d
    → IsValid d
unfolding update append_user append_tool_result
update-IsValid bound (user text) c d v e =
    subst IsValid (some-injective _ _ e) (IsValid-append c _ v (refl, tt))
update-IsValid bound (assistant m w) c d v e = append_assistant-IsValid m c d v w e
update-IsValid bound (result r) c d v e =
    subst IsValid (some-injective _ _ e) (IsValid-append c _ v (refl, tt))
update-IsValid bound interrupted c d v e = subst IsValid (some-injective _ _ e) (
    rw (append_interrupted_tool_results_lem bound c).0 (
      IsValid-append c _ v
        (closing_messages-valid bound (append_interrupted_tool_results bound c).1)))

-- A new conversation is well formed, and so is one that is restored from valid messages; the
-- restored one is the stored list itself.
pub from_messages-IsValid :
    (ms : List Message) (c : Conversation)
    → from_messages ms ≡ some c
    → All IsValidMessage ms
    → IsValid c × (c ≡ ms)
unfolding from_messages
from_messages-IsValid [] c e h = cc
from_messages-IsValid (m ∷ ms) c e h =
    let leading : m.role ≡ Role.system = ground arith in
    let same : m ∷ ms ≡ c = ground arith in
    (subst IsValid same (record { leading = leading; blocks = h }), sym same)
