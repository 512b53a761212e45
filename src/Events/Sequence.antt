-- ===== src/Events/Sequence.antt =====
-- The events of a buffer keep their order, its bound and its reserved sequence numbers.
use my_coding_agent.Messages.{Fields}
use my_coding_agent.Base.{
  Bool-cases, Option-cases, inl, inr, ℕ, suc, ◌+◌, ◌≤◌, ◌<◌, max, ◌≡◌, refl, String, Bool, true,
  Option, some, List, [], ◌∷◌, ◌++◌, arith, length, length-append, ltb,
}
use my_coding_agent.Events.{
  Stamp, emit_with, AgentEvent, EventBuffer, push, new, next_sequence, append,
}

-- Sequences grow strictly from above `lo`, up to `hi`.
abbrev Above : ℕ → List AgentEvent → ℕ → Type 0
Above lo [] hi = lo ≤ hi
Above lo (e ∷ es) hi = (lo < e.sequence) × Above e.sequence es hi

abbrev pub Ascending : List AgentEvent → ℕ → Type 0
Ascending [] hi = Unit
Ascending (e ∷ es) hi = Above e.sequence es hi

pub record IsOrdered (b : EventBuffer) : Type 0 where
  pub bounded : length b.events ≤ b.capacity
  pub positive : 1 ≤ b.capacity
  pub ascending : Ascending b.events b.thread_sequence

Above-snoc :
    (lo : ℕ) (es : List AgentEvent) (hi : ℕ) (e : AgentEvent)
    → Above lo es hi
    → hi < e.sequence
    → Above lo (es ++ (e ∷ [])) e.sequence
Above-snoc lo [] hi e h k = omega arith
Above-snoc lo (x ∷ es) hi e h k = (h.0, Above-snoc x.sequence es hi e h.1 k)

Ascending-of_Above : (lo : ℕ) (es : List AgentEvent) (hi : ℕ) → Above lo es hi → Ascending es hi
Ascending-of_Above lo [] hi h = tt
Ascending-of_Above lo (e ∷ es) hi h = h.1

Ascending-push :
    (cap : ℕ) (es : List AgentEvent) (hi : ℕ) (e : AgentEvent)
    → Ascending es hi
    → hi < e.sequence
    → Ascending (push cap es e) e.sequence
unfolding push
Ascending-push cap [] hi e h k = elim (Bool-cases (ltb 0 cap)) [
  | inl room ↦ rw room (omega arith)
  | inr full ↦ rw full tt
]
Ascending-push cap (x ∷ es) hi e h k =
    let longer : Above x.sequence (es ++ (e ∷ [])) e.sequence = Above-snoc x.sequence es hi e h k in
    elim (Bool-cases (ltb (suc (length es)) cap)) [
      | inl room ↦ rw room longer
      | inr full ↦ rw full (Ascending-of_Above x.sequence (es ++ (e ∷ [])) e.sequence longer)
    ]

length-push :
    (cap : ℕ) (es : List AgentEvent) (e : AgentEvent)
    → length es ≤ cap
    → length (push cap es e) ≤ cap
unfolding push
length-push cap [] e h = ground arith
length-push cap (x ∷ es) e h = ground (arith, length-append {0} es (e ∷ []))

-- The durable mark of a buffer that was restored at `start`: the newest one that was stored.
abbrev pub durable : ℕ → List ℕ → ℕ
durable start [] = start
durable start (w ∷ ws) = w

-- Every sequence in use lies within the range that storage knows to be taken.
pub record IsReserved (start : ℕ) (b : EventBuffer) : Type 0 where
  pub checkpointed : b.has_sequence_checkpoint ≡ true
  pub step : 1 ≤ b.reservation_size
  pub within : b.thread_sequence ≤ b.sequence_watermark
  pub stored : b.sequence_watermark ≡ durable start b.stored_watermarks

next_sequence-IsReserved :
    (start : ℕ) (stores : Bool) (b b' : EventBuffer)
    → IsReserved start b
    → next_sequence true stores b ≡ some b'
    → IsReserved start b'
      × (b'.thread_sequence ≡ b.thread_sequence + 1)
      × (b'.events ≡ b.events)
      × (b'.capacity ≡ b.capacity)
unfolding next_sequence
next_sequence-IsReserved start stores b b' h e = ground arith

append-IsReserved :
    (start : ℕ) (stores : Bool) (e : AgentEvent) (b : EventBuffer)
    → IsReserved start b
    → e.sequence ≡ b.thread_sequence
    → IsReserved start (append stores e b).0
unfolding append
append-IsReserved start stores e b h k = ground arith

module _ (stores : Bool) (e : AgentEvent) (b : EventBuffer) where
  pub append_events : (append stores e b).0.events ≡ push b.capacity b.events e
  unfolding append
  append_events = ground arith

  append_capacity : (append stores e b).0.capacity ≡ b.capacity
  unfolding append
  append_capacity = ground arith

  append_sequence : (append stores e b).0.thread_sequence ≡ max b.thread_sequence e.sequence
  unfolding append
  append_sequence = ground arith

  append-IsOrdered :
      (hi : ℕ)
      → length b.events ≤ b.capacity
      → 1 ≤ b.capacity
      → Ascending b.events hi
      → hi < e.sequence
      → e.sequence ≡ b.thread_sequence
      → IsOrdered (append stores e b).0
  append-IsOrdered hi bounded positive asc above now = record {
    bounded = rw (append_events, append_capacity) (length-push b.capacity b.events e bounded);
    positive = rw append_capacity positive;
    ascending =
        let same : max b.thread_sequence e.sequence ≡ e.sequence = omega (arith, now) in
        rw (append_events, append_sequence, same)
          (Ascending-push b.capacity b.events hi e asc above);
  }

-- An emission that is checkpointed, as all but the terminal ones of a Turn are, keeps the retained
-- sequences strictly increasing, the buffer within its capacity, and every sequence in use within
-- the durably reserved range.
pub emit_with-IsOrdered :
    (start : ℕ) (stamp : Stamp) (thread_id : String) (turn_id : Option String) (kind : String)
    (payload : Fields) (b : EventBuffer)
    → IsOrdered b
    → IsReserved start b
    → let b' = (emit_with true stamp thread_id turn_id kind payload b).0 in
      IsOrdered b' × IsReserved start b'
unfolding emit_with
emit_with-IsOrdered start stamp thread_id turn_id kind payload b o r =
    elim (Option-cases (next_sequence true stamp.stores_watermark b)) [
      | inl raised ↦ rw (raised, emit_with) (o, r)
      | inr (b', e) ↦
          let (r', next, same, cap) =
            next_sequence-IsReserved start stamp.stores_watermark b b' r e in
          rw (e, emit_with)
            (
              append-IsOrdered stamp.stores_event _ b' b.thread_sequence (rw (same, cap) o.bounded)
                  (rw cap o.positive) (rw same o.ascending) (omega arith) refl,
              append-IsReserved start stamp.stores_event _ b' r' refl,
            )
    ]

-- A buffer that is restored from the stored mark starts at or above every sequence that was in use,
-- whatever events are restored with it: its next sequence was never assigned before.
pub restart_above :
    (start : ℕ) (b r : EventBuffer) (events : List AgentEvent) (capacity reservation : ℕ)
    → IsReserved start b
    → new capacity events (some (durable start b.stored_watermarks)) reservation ≡ some r
    → (b.thread_sequence ≤ r.thread_sequence) × (r.thread_sequence ≤ r.sequence_watermark)
unfolding new
restart_above start b r events capacity reservation h e = ground arith
