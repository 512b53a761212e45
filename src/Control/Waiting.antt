-- ===== src/Control/Waiting.antt =====
-- `RunController.wait`: the race of one operation with the deadline, as the sequence of the
-- wake-ups of its loop.
use my_coding_agent.Base.{
  ℕ, zero, suc, ◌≡◌, refl, Bool, true, false, Option, none, some, List, [], ◌∷◌,
}
use my_coding_agent.Control.{
  Stop, limit_reached, cancelled, returned, raised, Controller, checkpoint,
}

-- `asyncio.wait` returned, with the operation or the deadline's change in `done` (if neither, then
-- the timer); or the waiting task itself was cancelled.
pub data Wake : Type 0 where
  woke : Bool → Bool → Wake
  outer_cancel : Wake

pub data Waited {ℓ} (A : Type ℓ) : Type ℓ where
  value : A → Waited A
  stopped : Stop → Waited A
  waiting : Waited A

-- What the loop does on one wake-up: `none` is `continue`. The first argument is what awaiting the
-- finished operation gives; the second what the cancelled operation settled to, if it is a
-- ToolResult that says so.
pub react {ℓ} : {A : Type ℓ} → Waited A → Option A → Wake → Option (Waited A)
react result settled (woke true _) = some result
react result settled (woke false true) = none
react result (some r) (woke false false) = some (value r)
react result none (woke false false) = some (stopped (limit_reached "execution_timeout"))
react result (some r) outer_cancel = some (value r)
react result none outer_cancel = some (stopped cancelled)

wait_loop {ℓ} : {A : Type ℓ} → Waited A → Option A → List Wake → Waited A
wait_loop result settled [] = waiting
wait_loop result settled (w ∷ ws) = elim (react result settled w) [
  | some r ↦ r
  | none ↦ wait_loop result settled ws
]

unfoldable pub wait {ℓ} : {A : Type ℓ} → ℕ → Controller → Waited A → Option A → List Wake → Waited A
unfolding wait_loop react
wait now c result settled ws = elim (checkpoint now c) [
  | raised e ↦ stopped e
  | returned ↦ wait_loop result settled ws
]

-- `n` changes of the deadline, before anything else happens.
abbrev pub changes : ℕ → List Wake → List Wake
changes zero ws = ws
changes (suc n) ws = woke false true ∷ changes n ws

wait_loop-changes {ℓ} :
    {A : Type ℓ} (result : Waited A) (settled : Option A) (n : ℕ) (ws : List Wake)
    → wait_loop result settled (changes n ws) ≡ wait_loop result settled ws
unfolding wait_loop react
wait_loop-changes result settled zero ws = refl
wait_loop-changes result settled (suc n) ws = wait_loop-changes result settled n ws

-- How a wait ends on the first wake-up that is not a mere change of the deadline.
abbrev pub Ends {ℓ} : {A : Type ℓ} → Waited A → Option A → Wake → Waited A → Type ℓ
Ends result settled (woke true _) w = w ≡ result
Ends result settled (woke false true) w = Unit
Ends result (some r) (woke false false) w = w ≡ value r
Ends result none (woke false false) w = w ≡ stopped (limit_reached "execution_timeout")
Ends result (some r) outer_cancel w = w ≡ value r
Ends result none outer_cancel w = w ≡ stopped cancelled

wait_loop-Ends {ℓ} :
    {A : Type ℓ} (result : Waited A) (settled : Option A) (w : Wake) (ws : List Wake)
    → Ends result settled w (wait_loop result settled (w ∷ ws))
unfolding wait_loop react
wait_loop-Ends result settled (woke true b) ws = refl
wait_loop-Ends result settled (woke false true) ws = tt
wait_loop-Ends result (some r) (woke false false) ws = refl
wait_loop-Ends result none (woke false false) ws = refl
wait_loop-Ends result (some r) outer_cancel ws = refl
wait_loop-Ends result none outer_cancel ws = refl

-- Once its checkpoint has passed, a wait is not ended by any number of pauses and resumptions of
-- the deadline. A finished operation then gives its own result, also if the timer has fired with
-- it. On a timeout or a cancellation the wait gives the result that the operation settled to, if
-- there is one, and otherwise raises the timeout or the cancellation. Later wake-ups do not count.
pub wait-Ends {ℓ} :
    {A : Type ℓ} (now : ℕ) (c : Controller) (result : Waited A) (settled : Option A) (n : ℕ)
    (w : Wake) (ws : List Wake)
    → checkpoint now c ≡ returned
    → Ends result settled w (wait now c result settled (changes n (w ∷ ws)))
unfolding wait
wait-Ends now c result settled n w ws h =
    rw (h, wait)
      (rw (wait_loop-changes result settled n (w ∷ ws)) (wait_loop-Ends result settled w ws))
