-- ===== src/Tests/Window.antt =====
-- A small window with a request of one message.
use my_coding_agent.Base.{ℕ, ◌≡◌, refl, String, [], ◌∷◌}
use my_coding_agent.Messages.{Json, Role, Message, text_block}
use my_coding_agent.Budget.{
  ToolDefinition, BudgetPolicy, make_policy, estimate, ensure_fits, text_tokens,
}

abbrev no_json : Json → String
no_json j = "{}"

abbrev half : ℕ → ℕ
half n = 0

abbrev policy : BudgetPolicy
policy = record {
  context_window_tokens = 1000;
  output_reserve = 250;
  safety_margin = 256;
  soft_limit = half;
}

abbrev hello : Message
hello = record { role = Role.user; content = text_block "hello" ∷ [] }

text_tokens-hello : text_tokens "hello" ≡ 2
unfolding text_tokens my_coding_agent.Budget.counts
text_tokens-hello = refl

estimate-hello : estimate no_json (hello ∷ []) [] ≡ 25
unfolding estimate my_coding_agent.Budget.counts
estimate-hello = refl
