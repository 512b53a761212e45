-- ===== src/Model/Attempts.antt =====
-- `ModelInvoker.stream` of agent/runtime/model_invoker.py: what is shown over all attempts of one call.
use my_coding_agent.Base.{
  ℕ, zero, suc, ◌+◌, Bool, true, false, not, ◌&&◌, ◌||◌, Option, none, some, List, [], ◌∷◌, ◌++◌,
  append-nil, append_assoc, ◌≡◌, refl, sym, ap, ◌∙◌, ◌⊎◌, inl, inr, arith, ◌==◌, if◌then◌else◌,
}
use my_coding_agent.Events.Emitter.{LlmResponse, ModelEvent}
use my_coding_agent.Model.{new_assembler}
use my_coding_agent.Model.Invoker.{LlmError, Reply, Answer, Provider, delay_at, chat}
use my_coding_agent.Model.Streaming.{
  read_attempt, Streamed, is_terminal, last_event, again_unless, shown_before, after_error,
  after_attempt, stream_from, stream,
}
use my_coding_agent.Model.Showing.{IsHidden, read_events-IsHonest}
use my_coding_agent.Model.Retrying.{is_exhausted, last_number, chat-IsBounded}

IsHidden-append : (es fs : List ModelEvent) → IsHidden es → IsHidden fs → IsHidden (es ++ fs)
IsHidden-append [] fs h k = k
IsHidden-append (e ∷ es) fs h k = ground (arith, IsHidden-append es fs)

last_event-IsHidden : (b c : Bool) (e : LlmError) → IsHidden (last_event b c e)
last_event-IsHidden true true e = refl
last_event-IsHidden true false e = refl
last_event-IsHidden false c e = refl

module _ (p : Provider) (delays : List ℕ) where
  -- What one attempt has shown, between events that show nothing
  abbrev pub FromOne : List ModelEvent → Type 0
  FromOne shown =
      (number : ℕ) × (earlier : List ModelEvent) × (late : List ModelEvent) × (shown
        ≡ earlier ++ ((read_attempt p number).shown ++ late))
      × IsHidden earlier
      × IsHidden late

  abbrev IsFair : Streamed → Type 0
  IsFair s = FromOne s.shown × (is_exhausted s.reply ≡ false)

  -- The rest of a call, which may have shown nothing
  abbrev IsRest : Streamed → Type 0
  IsRest s = ((s.shown ≡ []) ⊎ FromOne s.shown) × (is_exhausted s.reply ≡ false)

  again_unless-IsRest :
      (delay : ℕ) (cancelled : Bool) (rest : Streamed)
      → IsFair rest
      → IsRest (again_unless delay cancelled rest)
  again_unless-IsRest delay cancelled rest h = choose (not (delay == 0) && cancelled)
    where
      choose :
          (b : Bool) → IsRest (if b then record { shown = []; reply = Reply.stopped } else rest)
      choose true = (inl refl, refl)
      choose false = (inr h.0, h.1)

  module _ (number : ℕ) where
    abbrev own : List ModelEvent
    own = (read_attempt p number).shown

    ends-FromOne : (late : List ModelEvent) → IsHidden late → FromOne ((own ++ late) ++ [])
    ends-FromOne late h = (number, [], late, append-nil (own ++ late), refl, h)

    goes_on :
        (rest : List ModelEvent)
        → IsHidden own
        → (rest ≡ []) ⊎ FromOne rest
        → FromOne ((own ++ []) ++ rest)
    goes_on rest quiet (inl e) =
        (number, [], [], ap (λ r. (own ++ []) ++ r) e ∙ append-nil (own ++ []), refl, refl)
    goes_on rest quiet (inr (k, earlier, late, e, before, behind)) = (
      k,
      own ++ earlier,
      late,
      ap (λ r. r ++ rest) (append-nil own)
          ∙ ap (λ r. own ++ r) e
          ∙ sym (append_assoc own earlier ((read_attempt p k).shown ++ late)),
      IsHidden-append own earlier quiet before,
      behind,
    )

    after_error-IsFair :
        (seen delivered : Bool) (e : LlmError) (fallback : Option (Option LlmResponse))
        (rest : Streamed)
        → (seen ≡ false → IsHidden own)
        → ((number == 4) ≡ false → IsRest rest)
        → IsFair (
            shown_before
              (own ++ last_event (is_terminal number seen e) delivered e)
              (after_error p delays number seen e fallback rest))
    after_error-IsFair seen delivered e (some (some r)) rest h k = (
      ends-FromOne (last_event (is_terminal number seen e) delivered e)
          (last_event-IsHidden (is_terminal number seen e) delivered e),
      refl,
    )
    after_error-IsFair seen delivered e (some none) rest h k = (
      ends-FromOne (last_event (is_terminal number seen e) delivered e)
          (last_event-IsHidden (is_terminal number seen e) delivered e),
      (chat-IsBounded p delays).1,
    )
    after_error-IsFair seen delivered e none rest h k =
        choose seen (not e.retryable) (number == 4) h k
      where
        choose :
            (x y z : Bool)
            → (x ≡ false → IsHidden own)
            → (z ≡ false → IsRest rest)
            → IsFair (
                shown_before
                  (own ++ last_event (x || y || z) delivered e)
                  (if x || y || z then record { shown = []; reply = Reply.failed e } else rest))
        choose true y z f g = (
          ends-FromOne (last_event true delivered e) (last_event-IsHidden true delivered e),
          refl,
        )
        choose false true z f g = (
          ends-FromOne (last_event true delivered e) (last_event-IsHidden true delivered e),
          refl,
        )
        choose false false true f g = (
          ends-FromOne (last_event true delivered e) (last_event-IsHidden true delivered e),
          refl,
        )
        choose false false false f g =
            let (shown, real) = g refl in (goes_on rest.shown (f refl) shown, real)

    after_attempt-IsFair :
        (seen delivered : Bool) (answer : Answer) (rest : Streamed)
        → (seen ≡ false → IsHidden own)
        → ((number == 4) ≡ false → IsRest rest)
        → IsFair (after_attempt p delays number own seen delivered answer rest)
    after_attempt-IsFair seen delivered (Answer.response r) rest h k =
        ((number, [], [], sym (append-nil own), refl, refl), refl)
    after_attempt-IsFair seen delivered Answer.broken rest h k =
        ((number, [], [], sym (append-nil own), refl, refl), refl)
    after_attempt-IsFair seen delivered (Answer.error e) rest h k =
        after_error-IsFair seen delivered e e.fallback rest h k

    own-IsHidden : (read_attempt p number).delta_seen ≡ false → IsHidden own
    unfolding read_attempt
    own-IsHidden h =
        (read_events-IsHonest p number (p.stream_events number) false new_assembler h).1

  stream_from-IsFair :
      (left number : ℕ) → number + suc left ≡ 5 → IsFair (stream_from p delays (suc left) number)
  unfolding stream_from
  stream_from-IsFair zero number h =
      after_attempt-IsFair number _ _ (read_attempt p number).reply _ (own-IsHidden number)
        (λ e. last_number number h e)
  stream_from-IsFair (suc left) number h =
      let next : IsFair (stream_from p delays (suc left) (suc number)) =
        stream_from-IsFair left (suc number) (omega (arith, h)) in
      after_attempt-IsFair number _ _ (read_attempt p number).reply _ (own-IsHidden number) (λ e.
        again_unless-IsRest (delay_at delays number) (p.wait_cancelled number)
          (stream_from p delays (suc left) (suc number)) next)

  -- If the provider streams, what a streamed call gives to its listener over all its attempts is
  -- what one attempt gave, between events that show no output: an attempt is not repeated once
  -- output was shown. The call ends by an answer, an error or a cancellation, not by the assertion
  -- behind its loop.
  pub stream-FromOne :
      p.streams ≡ true
      → FromOne (stream p delays).shown × (is_exhausted (stream p delays).reply ≡ false)
  unfolding stream
  stream-FromOne h = choose p.streams h
    where
      choose :
          (b : Bool)
          → b ≡ true
          → IsFair (
              if b
              then stream_from p delays 5 0
              else record { shown = []; reply = (chat p delays).reply })
      choose true e = stream_from-IsFair 4 0 refl
      choose false e = absurd (ground arith)
