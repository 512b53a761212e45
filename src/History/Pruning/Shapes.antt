-- ===== src/History/Pruning/Shapes.antt =====
-- agent/runtime/history/pruning.py: the calls and results of a pruned transcript.
use my_coding_agent.Base.{
  ℕ, String, Bool, true, false, Option, none, some, List, [], ◌∷◌, map, ◌≡◌, refl, sym, ap, ◌∙◌,
  if◌then◌else◌, subst, leb,
}
use my_coding_agent.Base.Texts.{text_length}
use my_coding_agent.Messages.{
  Message, get_field, Role, Block, text_block, reasoning_block, call_block, result_block,
  ToolResultBlock, reduce_tool_result_block,
}
use my_coding_agent.History.Units.{
  AtomicHistoryUnit, call_ids, result_ids, call_ids_of, result_ids_of, parse_atomic_history,
  flatten,
}
use my_coding_agent.History.Units.Outlines.{
  SameIds, append-SameIds, outline, parse_atomic_history-SameIds,
}
use my_coding_agent.History.Units.Partition.{flatten-parse_atomic_history}
use my_coding_agent.History.Pruning.{
  ToolResultPruner, prune_block, marked_block, put_block, prune_blocks, is_marked, prune_message,
  prune, is_protected,
}
use my_coding_agent.History.Pruning.Units.{pruned_message, pruned_units, prune-pruned_units}

put_block-call_ids_of :
    (r : ToolResultBlock) (o : Option ToolResultBlock) (bs : List Block × ℕ)
    → call_ids_of (put_block r o bs).0 ≡ call_ids_of bs.0
unfolding call_ids_of
put_block-call_ids_of r none (bs, n) = refl
put_block-call_ids_of r (some s) (bs, n) = refl

put_block-result_ids_of :
    (r : ToolResultBlock) (o : Option ToolResultBlock) (bs : List Block × ℕ)
    → ((s : ToolResultBlock) → o ≡ some s → s.tool_call_id ≡ r.tool_call_id)
    → result_ids_of (put_block r o bs).0 ≡ r.tool_call_id ∷ result_ids_of bs.0
unfolding result_ids_of
put_block-result_ids_of r none (bs, n) h = refl
put_block-result_ids_of r (some s) (bs, n) h = ap (λ i. i ∷ result_ids_of bs) (h s refl)

-- The id of a block that stands in the place of another
abbrev id_or : String → Option ToolResultBlock → String
id_or id none = id
id_or id (some r) = r.tool_call_id

module _ (p : ToolResultPruner) where
  prune_block-tool_call_id :
      (r s : ToolResultBlock) → prune_block p r ≡ some s → s.tool_call_id ≡ r.tool_call_id
  unfolding prune_block marked_block reduce_tool_result_block
  prune_block-tool_call_id r s h =
      choose (is_marked (get_field "pruned" r.metadata))
        (leb (text_length r.content) p.threshold_chars)
        (p.same_metadata (reduce_tool_result_block p.bound r).metadata r.metadata)
        (reduce_tool_result_block p.bound r) (reduce_tool_result_block p.bound (marked_block r))
        refl refl h
    where
      choose :
          (a b c : Bool) (x y : ToolResultBlock)
          → x.tool_call_id ≡ r.tool_call_id
          → y.tool_call_id ≡ r.tool_call_id
          → (if a then none else if b then (if c then none else some x) else some y) ≡ some s
          → s.tool_call_id ≡ r.tool_call_id
      choose true b c x y ex ey k = cc
      choose false true true x y ex ey k = cc
      choose false true false x y ex ey k = sym (ap (id_or r.tool_call_id) k) ∙ ex
      choose false false c x y ex ey k = sym (ap (id_or r.tool_call_id) k) ∙ ey

  prune_blocks-call_ids_of : (bs : List Block) → call_ids_of (prune_blocks p bs).0 ≡ call_ids_of bs
  unfolding prune_blocks call_ids_of
  prune_blocks-call_ids_of [] = refl
  prune_blocks-call_ids_of (result_block r ∷ bs) =
      put_block-call_ids_of r (prune_block p r) (prune_blocks p bs) ∙ prune_blocks-call_ids_of bs
  prune_blocks-call_ids_of (text_block t ∷ bs) = prune_blocks-call_ids_of bs
  prune_blocks-call_ids_of (reasoning_block t ∷ bs) = prune_blocks-call_ids_of bs
  prune_blocks-call_ids_of (call_block c ∷ bs) =
      ap (λ ids. c.id ∷ ids) (prune_blocks-call_ids_of bs)

  prune_blocks-result_ids_of :
      (bs : List Block) → result_ids_of (prune_blocks p bs).0 ≡ result_ids_of bs
  unfolding prune_blocks result_ids_of
  prune_blocks-result_ids_of [] = refl
  prune_blocks-result_ids_of (result_block r ∷ bs) =
      put_block-result_ids_of r (prune_block p r) (prune_blocks p bs) (prune_block-tool_call_id r)
      ∙ ap (λ ids. r.tool_call_id ∷ ids) (prune_blocks-result_ids_of bs)
  prune_blocks-result_ids_of (text_block t ∷ bs) = prune_blocks-result_ids_of bs
  prune_blocks-result_ids_of (reasoning_block t ∷ bs) = prune_blocks-result_ids_of bs
  prune_blocks-result_ids_of (call_block c ∷ bs) = prune_blocks-result_ids_of bs

  pruned_message-ids :
      (m : Message)
      → (call_ids (pruned_message p m) ≡ call_ids m)
        × (result_ids (pruned_message p m) ≡ result_ids m)
  unfolding prune_message call_ids result_ids
  pruned_message-ids m = by_role m.role m.content
    where
      by_role :
          (role : Role) (content : List Block)
          → (call_ids (pruned_message p (record { role = role; content = content }))
              ≡ call_ids (record { role = role; content = content }))
            × (result_ids (pruned_message p (record { role = role; content = content }))
                ≡ result_ids (record { role = role; content = content }))
      by_role Role.system content = (refl, refl)
      by_role Role.user content = (refl, refl)
      by_role Role.assistant content = (refl, refl)
      by_role Role.tool content = (refl, prune_blocks-result_ids_of content)

  map-SameIds : (ms : List Message) → SameIds (map (pruned_message p) ms) ms
  map-SameIds [] = tt
  map-SameIds (m ∷ ms) = let (c, r) = pruned_message-ids m in (c, r, map-SameIds ms)

  refl-SameIds : (ms : List Message) → SameIds ms ms
  refl-SameIds [] = tt
  refl-SameIds (m ∷ ms) = (refl, refl, refl-SameIds ms)

  choice-SameIds :
      (b : Bool) (ms : List Message) → SameIds (if b then ms else map (pruned_message p) ms) ms
  choice-SameIds true ms = refl-SameIds ms
  choice-SameIds false ms = map-SameIds ms

  pruned_units-SameIds : (us : List AtomicHistoryUnit) → SameIds (pruned_units p us) (flatten us)
  unfolding flatten
  pruned_units-SameIds [] = tt
  pruned_units-SameIds (u ∷ us) =
      append-SameIds (if is_protected p u us then u.messages else map (pruned_message p) u.messages)
        u.messages (pruned_units p us) (flatten us)
        (choice-SameIds (is_protected p u us) u.messages) (pruned_units-SameIds us)

  -- The pruned transcript parses into units with the same positions, calls, results and
  -- completeness as the history.
  pub prune-outline :
      (history : List Message)
      → map outline (parse_atomic_history (prune p history).messages)
        ≡ map outline (parse_atomic_history history)
  prune-outline history = parse_atomic_history-SameIds (prune p history).messages history (
      subst (λ ms. SameIds ms history) (sym (prune-pruned_units p history))
        (subst (SameIds (pruned_units p (parse_atomic_history history)))
          (flatten-parse_atomic_history history)
          (pruned_units-SameIds (parse_atomic_history history))))
