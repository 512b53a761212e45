-- ===== src/Events/Polling.antt =====
-- Waiting for events: no wake-up is lost.
use my_coding_agent.Base.{
  ℕ, ◌≤◌, ◌≡◌, ◌≢◌, ◌∙◌, refl, String, Bool, true, false, not, ◌&&◌, ◌||◌, Option, none, some, List,
  [], ◌∷◌, ◌++◌, arith, length, ltb, is_empty, inl, inr, Option-cases, is_some, ap, sym, All,
  if◌then◌else◌, map,
}
use my_coding_agent.Events.{
  AgentEvent, EventBuffer, EventSubscription, push, append, after_cursor, read, poll, notify,
}
use my_coding_agent.Events.Sequence.{append_events}
use my_coding_agent.Events.Replay.{batch_of, shown, shown-read, read-append, Distinct, oldest_is}

-- A poll gives a batch to a closed subscription, and when the read shows an event or an expiry.
abbrev answers_poll : List AgentEvent × Bool → Bool
answers_poll (es, expired) = not (is_empty es) || expired

is_some-poll :
    (s : EventSubscription) (b : EventBuffer)
    → is_some (poll s b) ≡ (s.closed || answers_poll (shown (read s.after_event_id b)))
unfolding poll
is_some-poll s b = ground arith

push_some : (capacity : ℕ) (z : AgentEvent) → 1 ≤ capacity → is_empty (push capacity [] z) ≡ false
unfolding push
push_some capacity z h = ground arith

is_empty-snoc : (es : List AgentEvent) (z : AgentEvent) → is_empty (es ++ (z ∷ [])) ≡ false
is_empty-snoc [] z = refl
is_empty-snoc (e ∷ es) z = refl

answers_if :
    (lost : Bool) (ys : List AgentEvent) (z : AgentEvent)
    → answers_poll (if lost then ([], true) else (ys ++ (z ∷ []), false)) ≡ true
answers_if true ys z = refl
answers_if false ys z = rw (is_empty-snoc ys z)

module _ (stores : Bool) (b : EventBuffer) (z : AgentEvent) where
  answers-append-none :
      1 ≤ b.capacity
      → answers_poll (shown (read none b)) ≡ false
      → answers_poll (shown (read none (append stores z b).0)) ≡ true
  unfolding read
  answers-append-none h w =
      let nothing : b.events ≡ [] = ground arith in
      rw (append_events stores z b, nothing, push_some b.capacity z h)

  answers-append-some :
      (id : String)
      → Distinct b.events
      → z.event_id ≢ id
      → answers_poll (shown (read (some id) b)) ≡ false
      → answers_poll (shown (read (some id) (append stores z b).0)) ≡ true
  answers-append-some id d n w = elim (Option-cases (after_cursor id b.events)) [
    | inl gone ↦
        let expired : shown (read (some id) b) ≡ ([], true) = shown-read id b ∙ ap batch_of gone in
        cc (ap answers_poll expired, w)
    | inr (ys, e) ↦
        ap answers_poll (read-append stores b id ys z d e n)
        ∙ answers_if (not (ltb (length b.events) b.capacity) && oldest_is id b.events) ys z
  ]

woken : (ss : List EventSubscription) → All (λ t. (t.closed || t.wake) ≡ true) (map notify ss)
woken [] = tt
woken (s ∷ ss) = (ground arith, woken ss)

append_wakes :
    (z : AgentEvent) (b : EventBuffer)
    → (append true z b).0.subscriptions ≡ map notify b.subscriptions
unfolding append
append_wakes z b = ground arith

answers-append :
    (stores : Bool) (b : EventBuffer) (z : AgentEvent) (after : Option String)
    → 1 ≤ b.capacity
    → Distinct b.events
    → ((id : String) → after ≡ some id → z.event_id ≢ id)
    → answers_poll (shown (read after b)) ≡ false
    → answers_poll (shown (read after (append stores z b).0)) ≡ true
answers-append stores b z none h d fresh w = answers-append-none stores b z h w
answers-append stores b z (some id) h d fresh w =
    answers-append-some stores b z id d (fresh id refl) w

-- When a subscription had to wait and one more event is appended, the next poll gives a batch;
-- where the event is stored, every open subscription is woken.
pub poll-append :
    (stores : Bool) (s : EventSubscription) (b : EventBuffer) (z : AgentEvent)
    → poll s b ≡ none
    → 1 ≤ b.capacity
    → Distinct b.events
    → ((id : String) → s.after_event_id ≡ some id → z.event_id ≢ id)
    → (is_some (poll s (append stores z b).0) ≡ true)
      × All (λ t. (t.closed || t.wake) ≡ true) (append true z b).0.subscriptions
poll-append stores s b z w h d fresh =
    let waited : (s.closed || answers_poll (shown (read s.after_event_id b))) ≡ false =
      sym (is_some-poll s b) ∙ ap is_some w in
    let quiet : answers_poll (shown (read s.after_event_id b)) ≡ false = ground arith in
    let now = answers-append stores b z s.after_event_id h d fresh quiet in
    (
      is_some-poll s (append stores z b).0 ∙ ground (arith, now),
      rw (append_wakes z b) (woken b.subscriptions),
    )
