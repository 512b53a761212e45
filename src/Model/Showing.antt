-- ===== src/Model/Showing.antt =====
-- One streamed attempt of agent/runtime/model_invoker.py: what was shown of it, where no delta was seen.
use my_coding_agent.Base.{
  ℕ, String, Bool, true, false, not, ◌&&◌, ◌||◌, Option, List, [], ◌∷◌, any, ◌≡◌, refl, sym, ap,
  ◌∙◌, arith, if◌then◌else◌, ltb,
}
use my_coding_agent.Base.Texts.{is_empty_text}
use my_coding_agent.Events.Emitter.{
  ModelEvent, text_delta, reasoning_delta, tool_call_delta, message_end, error_event,
}
use my_coding_agent.Model.{
  MessageAssembler, Checked, parsed, refused, add, add_open, add_tool_call, file_id, given,
  updated_call, call_or_new, call_at,
}
use my_coding_agent.Model.Fragments.{parsed_injective, and_then_parts, add_open_of}
use my_coding_agent.Model.Invoker.{LlmError, Answer, Provider}
use my_coding_agent.Model.Streaming.{
  StreamAttempt, seen_after, added, read_events, error_attempt, started_attempt,
}

-- Output of the model, that a client shows
abbrev pub is_visible : ModelEvent → Bool
is_visible (text_delta t) = not (is_empty_text t)
is_visible (reasoning_delta t) = not (is_empty_text t)
is_visible (tool_call_delta i c n d) = true
is_visible (message_end r u) = false
is_visible (error_event m c r) = false

-- A delta that was added is one that was seen.
add-delta_seen :
    (a b : MessageAssembler) (e : ModelEvent)
    → add a e ≡ parsed b
    → is_visible e ≡ true
    → b.delta_seen ≡ true
unfolding add add_tool_call
add-delta_seen a b e h v = opened e (add_open_of a.finished (add_open a e) b h) v
  where
    seen_or : (x y : Bool) → not y ≡ true → (x || not y) ≡ true
    seen_or x y h = ground arith

    opened : (e : ModelEvent) → add_open a e ≡ parsed b → is_visible e ≡ true → b.delta_seen ≡ true
    opened (text_delta t) k v =
        sym (ap (λ x. x.delta_seen) (parsed_injective _ b k))
        ∙ seen_or a.delta_seen (is_empty_text t) v
    opened (reasoning_delta t) k v =
        sym (ap (λ x. x.delta_seen) (parsed_injective _ b k))
        ∙ seen_or a.delta_seen (is_empty_text t) v
    opened (tool_call_delta i c n d) k v =
        let (ids, e1, next) = and_then_parts (file_id i (given c) a.ids) _ b k in
        let (s, e2, last) =
          and_then_parts
            (updated_call i (given c) (given n) d (call_or_new (call_at i a.tool_calls))) _ b
            next in
        sym (ap (λ x. x.delta_seen) (parsed_injective _ b last))
    opened (message_end r u) k v = ground arith
    opened (error_event m c r) k v = ground arith

abbrev pub IsHidden : List ModelEvent → Type 0
IsHidden es = any is_visible es ≡ false

split :
    (seen other visible : Bool)
    → (seen || other) ≡ false
    → (visible ≡ true → other ≡ true)
    → (seen ≡ false) × (visible ≡ false)
split true other visible h k = ground arith
split false other true h k = ground (arith, k refl)
split false other false h k = (refl, refl)

seen_after-is_visible :
    (seen : Bool) (e : ModelEvent) (b : MessageAssembler)
    → seen_after seen e b ≡ false
    → (is_visible e ≡ true → b.delta_seen ≡ true)
    → (seen ≡ false) × (is_visible e ≡ false)
seen_after-is_visible seen (text_delta t) b h k =
    split seen b.delta_seen (not (is_empty_text t)) h k
seen_after-is_visible seen (reasoning_delta t) b h k =
    split seen b.delta_seen (not (is_empty_text t)) h k
seen_after-is_visible seen (tool_call_delta i c n d) b h k = split seen b.delta_seen true h k
seen_after-is_visible seen (message_end r u) b h k = (h, refl)
seen_after-is_visible seen (error_event m c r) b h k = split seen b.delta_seen false h k

module _ (p : Provider) (number : ℕ) where
  -- An attempt in which nothing was seen has shown nothing visible.
  abbrev pub IsHonest : Bool → StreamAttempt → Type 0
  IsHonest seen attempt = attempt.delta_seen ≡ false → (seen ≡ false) × IsHidden attempt.shown

  added-IsHonest :
      (seen : Bool) (e : ModelEvent) (a : MessageAssembler) (x : Checked MessageAssembler)
      (go : Bool → MessageAssembler → StreamAttempt)
      → add a e ≡ x
      → ((s : Bool) (b : MessageAssembler) → IsHonest s (go s b))
      → IsHonest seen (added p seen e x go)
  added-IsHonest seen e a (refused r) go k honest h = (h, refl)
  added-IsHonest seen e a (parsed b) go k honest h =
      let (after, quiet) = honest (seen_after seen e b) b h in
      let (unseen, hidden) = seen_after-is_visible seen e b after (add-delta_seen a b e k) in
      (unseen, rw (hidden, quiet) refl)

  error_attempt-IsHonest :
      (seen : Bool) (m : String) (c : Option String) (r : Bool) (error : LlmError)
      → IsHonest seen (error_attempt number seen (error_event m c r) error)
  error_attempt-IsHonest seen m c r error = choose (not seen && error.retryable && ltb number 4)
    where
      choose :
          (b : Bool)
          → IsHonest seen (
              if b then started_attempt seen (Answer.error error) else record {
                shown = error_event m c r ∷ [];
                delta_seen = seen;
                reply = Answer.error error;
                delivered = true;
              })
      choose true h = (h, refl)
      choose false h = (h, refl)

  pub read_events-IsHonest :
      (es : List ModelEvent) (seen : Bool) (a : MessageAssembler)
      → IsHonest seen (read_events p number seen a es)
  unfolding read_events
  read_events-IsHonest [] seen a h = (h, refl)
  read_events-IsHonest (error_event m c r ∷ es) seen a h = error_attempt-IsHonest seen m c r _ h
  read_events-IsHonest (text_delta t ∷ es) seen a h =
      added-IsHonest seen (text_delta t) a (add a (text_delta t)) _ refl
        (λ s b. read_events-IsHonest es s b) h
  read_events-IsHonest (reasoning_delta t ∷ es) seen a h =
      added-IsHonest seen (reasoning_delta t) a (add a (reasoning_delta t)) _ refl
        (λ s b. read_events-IsHonest es s b) h
  read_events-IsHonest (tool_call_delta i c n d ∷ es) seen a h =
      added-IsHonest seen (tool_call_delta i c n d) a (add a (tool_call_delta i c n d)) _ refl
        (λ s b. read_events-IsHonest es s b) h
  read_events-IsHonest (message_end r u ∷ es) seen a h =
      added-IsHonest seen (message_end r u) a (add a (message_end r u)) _ refl
        (λ s b. read_events-IsHonest es s b) h
