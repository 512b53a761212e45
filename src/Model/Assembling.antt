-- ===== src/Model/Assembling.antt =====
-- agent/runtime/message_assembler.py: the response that is assembled of a stream.
use my_coding_agent.Base.{
  ℕ, String, Bool, true, false, not, Option, none, some, List, [], ◌∷◌, ◌++◌, append-nil, ◌≡◌, refl,
  sym, ap, ◌∙◌, arith, ◌==◌, if◌then◌else◌,
}
use my_coding_agent.Messages.{Json, Block, text_block, reasoning_block}
use my_coding_agent.Events.Emitter.{
  LlmResponse, ModelEvent, text_delta, reasoning_delta, tool_call_delta, message_end, error_event,
}
use my_coding_agent.Model.{
  MessageAssembler, Checked, parsed, refused, new_assembler, call_at, add_open, add, add_all,
  provider_said, joined, block_if, call_blocks, by_index, assemble, before_end,
}
use my_coding_agent.Model.Fragments.{
  text_deltas, reasonings, deltas, arguments_at, Collects, parsed_injective, and_then_parts, joins,
  text_deltas-append, reasonings-append, add_tool_call-Collects, add_open_of,
}

module _ (index : ℕ) where
  add_open-Collects :
      (a b : MessageAssembler) (e : ModelEvent)
      → add_open a e ≡ parsed b
      → Collects index a b (e ∷ [])
  add_open-Collects a b (text_delta t) h =
      let made = parsed_injective _ b h in
      record {
        text = sym (ap (λ x. x.text) made);
        reasoning = sym (ap (λ x. x.reasoning) made) ∙ sym (append-nil a.reasoning);
        arguments =
            sym (ap (λ x. arguments_at index x.tool_calls) made)
            ∙ sym (append-nil (arguments_at index a.tool_calls));
      }
  add_open-Collects a b (reasoning_delta t) h =
      let made = parsed_injective _ b h in
      record {
        text = sym (ap (λ x. x.text) made) ∙ sym (append-nil a.text);
        reasoning = sym (ap (λ x. x.reasoning) made);
        arguments =
            sym (ap (λ x. arguments_at index x.tool_calls) made)
            ∙ sym (append-nil (arguments_at index a.tool_calls));
      }
  add_open-Collects a b (tool_call_delta i c n d) h = add_tool_call-Collects index i c n d a b h
  add_open-Collects a b (message_end r u) h =
      let made = parsed_injective _ b h in
      record {
        text = sym (ap (λ x. x.text) made) ∙ sym (append-nil a.text);
        reasoning = sym (ap (λ x. x.reasoning) made) ∙ sym (append-nil a.reasoning);
        arguments =
            sym (ap (λ x. arguments_at index x.tool_calls) made)
            ∙ sym (append-nil (arguments_at index a.tool_calls));
      }
  add_open-Collects a b (error_event m c r) h = failed h
    where
      failed : refused (provider_said m) ≡ parsed b → Collects index a b (error_event m c r ∷ [])
      failed k = cc

  deltas-cons :
      (e : ModelEvent) (es : List ModelEvent)
      → deltas index (e ∷ es) ≡ deltas index (e ∷ []) ++ deltas index es
  deltas-cons (text_delta t) es = refl
  deltas-cons (reasoning_delta t) es = refl
  deltas-cons (tool_call_delta i c n none) es = ground arith
  deltas-cons (tool_call_delta i c n (some d)) es = choice (i == index)
    where
      choice :
          (b : Bool)
          → (if b then d ∷ deltas index es else deltas index es)
            ≡ (if b then d ∷ [] else []) ++ deltas index es
      choice true = refl
      choice false = refl
  deltas-cons (message_end r u) es = refl
  deltas-cons (error_event m c r) es = refl

  add_all-Collects :
      (es : List ModelEvent) (a b : MessageAssembler)
      → add_all a es ≡ parsed b
      → Collects index a b es
  unfolding add_all add
  add_all-Collects [] a b h = record {
    text = sym (ap (λ x. x.text) (parsed_injective a b h)) ∙ sym (append-nil a.text);
    reasoning = sym (ap (λ x. x.reasoning) (parsed_injective a b h)) ∙ sym (append-nil a.reasoning);
    arguments =
        sym (ap (λ x. arguments_at index x.tool_calls) (parsed_injective a b h))
        ∙ sym (append-nil (arguments_at index a.tool_calls));
  }
  add_all-Collects (e ∷ es) a b h =
      let (c, first, others) = and_then_parts (add a e) (λ x. add_all x es) b h in
      let one = add_open-Collects a c e (add_open_of a.finished (add_open a e) c first) in
      let rest = add_all-Collects es c b others in
      record {
        text =
            joins a.text c.text b.text (text_deltas (e ∷ [])) (text_deltas es)
              (text_deltas (e ∷ es)) one.text rest.text (text_deltas-append (e ∷ []) es);
        reasoning =
            joins a.reasoning c.reasoning b.reasoning (reasonings (e ∷ [])) (reasonings es)
              (reasonings (e ∷ es)) one.reasoning rest.reasoning (reasonings-append (e ∷ []) es);
        arguments =
            joins (arguments_at index a.tool_calls) (arguments_at index c.tool_calls)
              (arguments_at index b.tool_calls) (deltas index (e ∷ [])) (deltas index es)
              (deltas index (e ∷ es)) one.arguments rest.arguments (deltas-cons e es);
      }

-- A response with the collected texts in front of its calls
abbrev pub IsAssembled :
    (String → Option Json) → ℕ → List ModelEvent → MessageAssembler → LlmResponse → Type 0
IsAssembled loads index events a response =
    (arguments_at index a.tool_calls ≡ deltas index events)
    × (calls : List Block) × (call_blocks loads (by_index a.tool_calls) ≡ parsed calls)
    × (response.message.content
        ≡ block_if reasoning_block (joined (reasonings events))
            (block_if text_block (joined (text_deltas events)) calls))

-- If a stream is taken event by event and assembled, the response holds the reasoning deltas
-- joined in order, then the text deltas joined in order, each only where it is not empty, and then
-- its calls by their index; each index has collected the argument fragments of its own deltas in
-- order, however those of several calls are interleaved.
pub assemble-IsAssembled :
    (loads : String → Option Json) (index : ℕ) (events : List ModelEvent) (a : MessageAssembler)
    (response : LlmResponse)
    → add_all new_assembler events ≡ parsed a
    → assemble loads a ≡ parsed response
    → IsAssembled loads index events a response
unfolding assemble call_at
assemble-IsAssembled loads index events a response h k =
    let collected : Collects index new_assembler a events =
      add_all-Collects index events new_assembler a h in
    let (calls, made, last) =
      and_then_parts (call_blocks loads (by_index a.tool_calls)) _ response
        (finished_of a.finished _ response k) in
    (
      collected.arguments,
      calls,
      made,
      sym (ap (λ r. r.message.content) (parsed_injective _ response last))
          ∙ ap
              (λ ts.
                block_if reasoning_block (joined ts) (block_if text_block (joined a.text) calls))
              collected.reasoning
          ∙ ap
              (λ ts.
                block_if reasoning_block (joined (reasonings events))
                  (block_if text_block (joined ts) calls))
              collected.text,
    )
  where
    finished_of :
        (done : Bool) (x : Checked LlmResponse) (r : LlmResponse)
        → (if not done then refused before_end else x) ≡ parsed r
        → x ≡ parsed r
    finished_of true x r e = e
    finished_of false x r e = cc
