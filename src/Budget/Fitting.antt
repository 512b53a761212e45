-- ===== src/Budget/Fitting.antt =====
-- A request that fits leaves room for the output and the margin, and prefixes of a request fit.
use my_coding_agent.Base.{
  ℕ, ◌+◌, ◌*◌, ◌≤◌, ◌≡◌, ◌↔◌, String, true, Option, some, List, [], ◌∷◌, ◌++◌, arith, is_some,
}
use my_coding_agent.Messages.{Json, Message}
use my_coding_agent.Budget.{
  ToolDefinition, BudgetPolicy, make_policy, input_budget, assess, ensure_fits, estimate,
  messages_tokens,
}

-- A policy that can be made has the window it was given, and reserves at least one token for the
-- output and at most a quarter of the window, rounded up.
pub make_policy_reserves :
    (window margin : ℕ) (output reserve other : Option ℕ) (soft : ℕ → ℕ) (p : BudgetPolicy)
    → make_policy window output reserve margin other soft ≡ some p
    → (1 ≤ p.output_reserve)
      × (4 * p.output_reserve ≤ window + 3)
      × (p.context_window_tokens ≡ window)
unfolding make_policy
make_policy_reserves window margin output reserve other soft p h = ground arith

module _ (json_text : Json → String) where
  messages_tokens-append :
      (ms ns : List Message)
      → messages_tokens json_text (ms ++ ns)
        ≡ messages_tokens json_text ms + messages_tokens json_text ns
  unfolding messages_tokens
  messages_tokens-append [] ns = omega arith
  messages_tokens-append (m ∷ ms) ns = omega (arith, messages_tokens-append ms ns)

  -- A request passes `ensure_fits` exactly when its estimate, the output reserve and the safety
  -- margin go into the context window together.
  pub ensure_fits_iff :
      (p : BudgetPolicy) (ms : List Message) (ts : List ToolDefinition)
      → (is_some (ensure_fits json_text p ms ts) ≡ true)
        ↔ (estimate json_text ms ts + p.output_reserve + p.safety_margin ≤ p.context_window_tokens)
  unfolding ensure_fits assess input_budget estimate
  ensure_fits_iff p ms ts = (λ h. ground arith, λ h. ground arith)

  -- If a request fits, then so does each request with fewer messages at its end.
  pub ensure_fits-append :
      (p : BudgetPolicy) (ms ns : List Message) (ts : List ToolDefinition)
      → is_some (ensure_fits json_text p (ms ++ ns) ts) ≡ true
      → is_some (ensure_fits json_text p ms ts) ≡ true
  unfolding estimate
  ensure_fits-append p ms ns ts h =
      (ensure_fits_iff p ms ts).1
        (omega (arith, messages_tokens-append ms ns, (ensure_fits_iff p (ms ++ ns) ts).0 h))
