-- ===== src/Events/Replay.antt =====
-- Reading behind a cursor: what a client gets, and when its cursor has expired.
use my_coding_agent.Base.{
  ℕ, suc, ◌≡◌, ◌≢◌, ◌⊎◌, ◌∙◌, refl, String, Bool, true, false, not, ◌&&◌, Option, none, some, List,
  [], ◌∷◌, ◌++◌, arith, length, ltb, str_eq, eq_iff, inl, inr, Bool-cases, Option-cases, subst, ap,
  sym, if◌then◌else◌,
}
use my_coding_agent.Events.{AgentEvent, EventBatch, EventBuffer, push, append, after_cursor, read}
use my_coding_agent.Events.Sequence.{append_events}

-- No two retained events have the same id.
abbrev pub Distinct : List AgentEvent → Type 0
Distinct [] = Unit
Distinct (e ∷ es) = (after_cursor e.event_id es ≡ none) × Distinct es

abbrev pub oldest_is : String → List AgentEvent → Bool
oldest_is id [] = false
oldest_is id (e ∷ es) = str_eq e.event_id id

after_cursor-snoc :
    (id : String) (es ys : List AgentEvent) (z : AgentEvent)
    → after_cursor id es ≡ some ys
    → after_cursor id (es ++ (z ∷ [])) ≡ some (ys ++ (z ∷ []))
unfolding after_cursor
after_cursor-snoc id [] ys z h = cc
after_cursor-snoc id (e ∷ es) ys z h = ground (arith, after_cursor-snoc id es ys z)

after_cursor-snoc_none :
    (id : String) (es : List AgentEvent) (z : AgentEvent)
    → after_cursor id es ≡ none
    → z.event_id ≢ id
    → after_cursor id (es ++ (z ∷ [])) ≡ none
unfolding after_cursor
after_cursor-snoc_none id [] z h n = ground (arith, eq_iff z.event_id id)
after_cursor-snoc_none id (e ∷ es) z h n = ground (arith, after_cursor-snoc_none id es z)

-- An event in the list keeps its successors when another is appended, unless it is the oldest of a
-- full list.
after_cursor-push :
    (capacity : ℕ) (id : String) (es ys : List AgentEvent) (z : AgentEvent)
    → Distinct es
    → after_cursor id es ≡ some ys
    → z.event_id ≢ id
    → after_cursor id (push capacity es z)
      ≡ (if not (ltb (length es) capacity) && oldest_is id es then none else some (ys ++ (z ∷ [])))
unfolding push
after_cursor-push capacity id [] ys z d h n = unfold after_cursor in cc
after_cursor-push capacity id (e ∷ es) ys z d h n =
    elim (Bool-cases (ltb (suc (length es)) capacity)) [
      | inl room ↦ rw room (after_cursor-snoc id (e ∷ es) ys z h)
      | inr full ↦ rw full (dropped (Bool-cases (str_eq e.event_id id)))
    ]
  where
    same_id : str_eq e.event_id id ≡ true → after_cursor id es ≡ none
    same_id same = subst (λ k. after_cursor k es ≡ none) ((eq_iff e.event_id id).0 same) d.0

    later : str_eq e.event_id id ≡ false → after_cursor id es ≡ some ys
    later other = unfold after_cursor in ground arith

    dropped :
        (str_eq e.event_id id ≡ true) ⊎ (str_eq e.event_id id ≡ false)
        → after_cursor id (es ++ (z ∷ []))
          ≡ (if str_eq e.event_id id then none else some (ys ++ (z ∷ [])))
    dropped (inl same) = rw same (after_cursor-snoc_none id es z (same_id same) n)
    dropped (inr other) = rw other (after_cursor-snoc id es ys z (later other))

-- What a batch shows of the events behind a cursor.
abbrev pub batch_of : Option (List AgentEvent) → List AgentEvent × Bool
batch_of none = ([], true)
batch_of (some es) = (es, false)

abbrev pub shown : EventBatch → List AgentEvent × Bool
shown b = (b.events, b.cursor_expired)

pub shown-read :
    (id : String) (b : EventBuffer) → shown (read (some id) b) ≡ batch_of (after_cursor id b.events)
unfolding read
shown-read id b = elim (Option-cases (after_cursor id b.events)) [
  | inl gone ↦ rw (gone, read)
  | inr (es, e) ↦ rw (e, read)
]

batch_of-if :
    (lost : Bool) (es : List AgentEvent)
    → batch_of (if lost then none else some es) ≡ (if lost then ([], true) else (es, false))
batch_of-if true es = refl
batch_of-if false es = refl

-- The retained events are some without the id, one with it, and `ys`.
pub record Splits (id : String) (es ys : List AgentEvent) : Type 0 where
  pub before : List AgentEvent
  pub cursor : AgentEvent
  pub events : es ≡ before ++ (cursor ∷ ys)
  pub same_id : cursor.event_id ≡ id
  pub first : after_cursor id before ≡ none

after_cursor-Splits :
    (id : String) (es ys : List AgentEvent) → after_cursor id es ≡ some ys → Splits id es ys
unfolding after_cursor
after_cursor-Splits id [] ys h = cc
after_cursor-Splits id (e ∷ es) ys h = elim (Bool-cases (str_eq e.event_id id)) [
  | inl same ↦
      let rest : es ≡ ys = ground arith in
      record {
        before = [];
        cursor = e;
        events = ap (λ xs. e ∷ xs) rest;
        same_id = (eq_iff e.event_id id).0 same;
        first = refl;
      }
  | inr other ↦
      let s = after_cursor-Splits id es ys (ground arith) in
      record {
        before = e ∷ s.before;
        cursor = s.cursor;
        events = ap (λ xs. e ∷ xs) s.events;
        same_id = s.same_id;
        first = rw other s.first;
      }
]

-- A read behind a cursor that has not expired gives all the events that follow the first event with
-- the cursor's id, and nothing else; if it has expired, no retained event is found by that id.
pub read-Splits :
    (id : String) (b : EventBuffer)
    → (shown (read (some id) b) ≡ ([], true)) × (after_cursor id b.events ≡ none)
      ⊎ Splits id b.events (shown (read (some id) b)).0 × ((shown (read (some id) b)).1 ≡ false)
read-Splits id b = elim (Option-cases (after_cursor id b.events)) [
  | inl gone ↦ inl (shown-read id b ∙ ap batch_of gone, gone)
  | inr (es, e) ↦
      let seen : shown (read (some id) b) ≡ (es, false) = shown-read id b ∙ ap batch_of e in
      inr (
        subst (Splits id b.events) (sym (ap (λ (q : List AgentEvent × Bool). q.0) seen))
            (after_cursor-Splits id b.events es e),
        ap (λ (q : List AgentEvent × Bool). q.1) seen,
      )
]

-- After one more event, a client whose cursor was retained reads what it would have read before and
-- the new event behind it; or, exactly if its cursor was the oldest event of a full buffer, an empty
-- batch that says that the cursor has expired. There is no gap without that mark.
pub read-append :
    (stores : Bool) (b : EventBuffer) (id : String) (ys : List AgentEvent) (z : AgentEvent)
    → Distinct b.events
    → after_cursor id b.events ≡ some ys
    → z.event_id ≢ id
    → shown (read (some id) (append stores z b).0) ≡ (
        if not (ltb (length b.events) b.capacity) && oldest_is id b.events
        then ([], true)
        else (ys ++ (z ∷ []), false))
read-append stores b id ys z d h n =
    shown-read id (append stores z b).0
    ∙ rw (append_events stores z b, after_cursor-push b.capacity id b.events ys z d h n)
        (batch_of-if _ (ys ++ (z ∷ [])))
