-- ===== src/Model/Retrying.antt =====
-- The retries of agent/runtime/model_invoker.py: what a client has seen when an attempt is repeated, and that the
-- loops end.
use my_coding_agent.Base.{
  ℕ, zero, suc, ◌+◌, ◌≤◌, Bool, true, false, not, ◌||◌, List, [], ◌∷◌, ◌≡◌, refl, arith, ◌==◌,
  if◌then◌else◌,
}
use my_coding_agent.Model.Invoker.{
  Reply, Answer, Provider, ChatRun, delay_at, wait_then, once, after_reply, chat_from, chat,
}

abbrev pub is_exhausted : Reply → Bool
is_exhausted Reply.exhausted = true
is_exhausted _ = false

-- So many requests at most, and not the end behind the loop
abbrev pub IsBounded : ℕ → ChatRun → Type 0
IsBounded n asked = (asked.requests ≤ n) × (is_exhausted asked.reply ≡ false)

wait_then-IsBounded :
    (delay : ℕ) (cancelled : Bool) (rest : ChatRun) (n : ℕ)
    → IsBounded n rest
    → IsBounded (suc n) (wait_then delay cancelled rest)
wait_then-IsBounded delay cancelled rest n (few, real) = choose (delay == 0) cancelled
  where
    choose :
        (a b : Bool)
        → IsBounded (suc n) (
            if a
            then record rest { requests = rest.requests + 1 }
            else if b
            then record { reply = Reply.stopped; requests = 1; waits = delay ∷ [] }
            else record {
              reply = rest.reply;
              requests = rest.requests + 1;
              waits = delay ∷ rest.waits;
            })
    choose true b = (omega (arith, few), real)
    choose false true = (omega arith, refl)
    choose false false = (omega (arith, few), real)

after_reply-IsBounded :
    (number : ℕ) (answer : Answer) (again : ChatRun) (n : ℕ)
    → ((number == 4) ≡ false → IsBounded (suc n) again)
    → IsBounded (suc n) (after_reply number answer again)
after_reply-IsBounded number (Answer.response r) again n h = (omega arith, refl)
after_reply-IsBounded number Answer.broken again n h = (omega arith, refl)
after_reply-IsBounded number (Answer.error e) again n h = choose (not e.retryable) (number == 4) h
  where
    choose :
        (a b : Bool)
        → (b ≡ false → IsBounded (suc n) again)
        → IsBounded (suc n) (if a || b then once (Reply.failed e) else again)
    choose true b k = (omega arith, refl)
    choose false true k = (omega arith, refl)
    choose false false k = k refl

-- Where one attempt remains, it is the one with the number four.
pub last_number : {A : Type 0} (number : ℕ) → number + 1 ≡ 5 → (number == 4) ≡ false → A
last_number number h e = absurd (ground arith)

module _ (p : Provider) (delays : List ℕ) where
  chat_from-IsBounded :
      (left number : ℕ)
      → number + suc left ≡ 5
      → IsBounded (suc left) (chat_from p delays (suc left) number)
  unfolding chat_from
  chat_from-IsBounded zero number h =
      after_reply-IsBounded number (p.chat_reply number) _ zero (λ e. last_number number h e)
  chat_from-IsBounded (suc left) number h =
      let next : IsBounded (suc left) (chat_from p delays (suc left) (suc number)) =
        chat_from-IsBounded left (suc number) (omega (arith, h)) in
      after_reply-IsBounded number (p.chat_reply number) _ (suc left) (λ e.
        wait_then-IsBounded (delay_at delays number) (p.wait_cancelled number)
          (chat_from p delays (suc left) (suc number)) (suc left) next)

  -- A chat, whatever the provider answers, makes five requests at most and ends by an answer, an
  -- error or a cancellation, not by the assertion behind its loop.
  pub chat-IsBounded : IsBounded 5 (chat p delays)
  unfolding chat
  chat-IsBounded = chat_from-IsBounded 4 0 refl
