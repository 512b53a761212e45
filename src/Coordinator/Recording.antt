-- ===== src/Coordinator/Recording.antt =====
-- What one recorded result, and the attempt of one call, add to the conversation.
use my_coding_agent.Base.{
  ◌≡◌, refl, ap, sym, ◌∙◌, String, Bool, true, false, List, [], ◌∷◌, ◌++◌, map, append-nil,
  append_assoc, map-append, arith, if◌then◌else◌,
}
use my_coding_agent.Messages.{Fields, ToolCall, reduce_tool_result_block}
use my_coding_agent.History.Units.{call_ids, result_ids}
use my_coding_agent.Conversation.{
  Conversation, append_tool_result, completed_calls, requested_calls,
}
use my_coding_agent.Conversation.Closing.{completed_calls-append, requested_calls-append}
use my_coding_agent.Control.{Controller, cancel}
use my_coding_agent.Coordinator.{
  ToolResult, PolicyResult, Asked, answer, no_answer, deny, require_approval, allow, after_asking,
  World, Turn, Parts, decided, Decision, record_evidence, file_result, record_result,
  append_skipped, request_approval, run_tool, execute_one, with_controller, abort_batch, emit,
  published, evidence_recorded, requested, keep_evidence, failure, not_executed,
}

abbrev pub ids : List ToolCall → List String
ids = map (λ (c : ToolCall). c.id)

-- The results of `t'` are those of `t` and one for each of `calls`, in order; no call was added.
pub record Answers (t : Turn) (calls : List ToolCall) (t' : Turn) : Type 0 where
  pub results : completed_calls t'.conversation ≡ completed_calls t.conversation ++ ids calls
  pub requests : requested_calls t'.conversation ≡ requested_calls t.conversation

pub record_evidence-keeps :
    (p : Parts) (es : List Fields) (t : Turn)
    → ((record_evidence p es t).conversation ≡ t.conversation)
      × ((record_evidence p es t).controller ≡ t.controller)
unfolding record_evidence
record_evidence-keeps p [] t = (refl, refl)
record_evidence-keeps p (e ∷ es) t = ground (
  arith,
  record_evidence-keeps p es
      (emit (evidence_recorded e) (record t { evidence = keep_evidence t.evidence e })),
)

module _ (p : Parts) (c : ToolCall) (r : ToolResult) (t : Turn) where
  abbrev pub attached : ToolResult
  attached = p.attach_evidence c r

  pub record_result-keeps :
      ((record_result p c r t).conversation ≡ (file_result p c attached t).conversation)
      × ((record_result p c r t).controller ≡ (file_result p c attached t).controller)
  unfolding record_result
  record_result-keeps =
      ground
        (arith, record_evidence-keeps p (p.evidence_of c attached) (file_result p c attached t))

  pub record_result-controller : (record_result p c r t).controller ≡ t.controller
  record_result-controller = unfold file_result in record_result-keeps.1

pub file_result-completed :
    (p : Parts) (c : ToolCall) (r : ToolResult) (t : Turn)
    → completed_calls (file_result p c r t).conversation
      ≡ completed_calls t.conversation ++ (c.id ∷ [])
unfolding file_result append_tool_result completed_calls result_ids reduce_tool_result_block
file_result-completed p c r t = completed_calls-append t.conversation _

pub file_result-requested :
    (p : Parts) (c : ToolCall) (r : ToolResult) (t : Turn)
    → requested_calls (file_result p c r t).conversation ≡ requested_calls t.conversation
unfolding file_result append_tool_result requested_calls call_ids
file_result-requested p c r t = requested_calls-append t.conversation _ ∙ append-nil _

pub record_result-Answers :
    (p : Parts) (c : ToolCall) (r : ToolResult) (t : Turn)
    → Answers t (c ∷ []) (record_result p c r t)
record_result-Answers p c r t = record {
  results =
      ap completed_calls (record_result-keeps p c r t).0
      ∙ file_result-completed p c (p.attach_evidence c r) t;
  requests =
      ap requested_calls (record_result-keeps p c r t).0
      ∙ file_result-requested p c (p.attach_evidence c r) t;
}

pub Answers-trans :
    {t u v : Turn} (cs ds : List ToolCall)
    → Answers t cs u
    → Answers u ds v
    → Answers t (cs ++ ds) v
Answers-trans {t} {u} {v} cs ds h k = record {
  results =
      k.results
      ∙ (ap (λ xs. xs ++ ids ds) h.results
          ∙ (append_assoc (completed_calls t.conversation) (ids cs) (ids ds)
              ∙ ap (λ xs. completed_calls t.conversation ++ xs)
                  (sym (map-append (λ (c : ToolCall). c.id) cs ds))));
  requests = k.requests ∙ h.requests;
}

-- A turn with the same conversation has the same answers.
pub Answers-same :
    {t u v : Turn} {cs : List ToolCall}
    → u.conversation ≡ t.conversation
    → Answers u cs v
    → Answers t cs v
Answers-same {cs = cs} h k = record {
  results = k.results ∙ ap (λ c. completed_calls c ++ ids cs) h;
  requests = k.requests ∙ ap requested_calls h;
}

-- The calls that come first are answered: what a batch leaves that an emission has ended.
abbrev pub AnswersSome : Turn → List ToolCall → Turn → Type 0
AnswersSome t calls t' =
    (answered : List ToolCall) × (rest : List ToolCall) × (calls ≡ answered ++ rest)
    × Answers t answered t'

-- All are answered, unless the last emission raised.
abbrev pub Filed : Parts → Turn → List ToolCall → Turn → Type 0
Filed p t calls t' = AnswersSome t calls t' × (published p t' ≡ true → Answers t calls t')

pub Answers-none : {t u : Turn} → u.conversation ≡ t.conversation → Answers t [] u
Answers-none {t} {u} e = record {
  results = ap completed_calls e ∙ sym (append-nil (completed_calls t.conversation));
  requests = ap requested_calls e;
}

pub AnswersSome-all :
    {t u : Turn} (calls : List ToolCall) → Answers t calls u → AnswersSome t calls u
AnswersSome-all calls h = (calls, [], sym (append-nil calls), h)

pub AnswersSome-first :
    {t u v : Turn} (c : ToolCall) (calls : List ToolCall)
    → Answers t (c ∷ []) u
    → AnswersSome u calls v
    → AnswersSome t (c ∷ calls) v
AnswersSome-first c calls h (answered, rest, e, k) =
    (c ∷ answered, rest, ap (λ xs. c ∷ xs) e, Answers-trans (c ∷ []) answered h k)

pub Filed-first :
    (p : Parts) {t u v : Turn} (c : ToolCall) (calls : List ToolCall)
    → Answers t (c ∷ []) u
    → Filed p u calls v
    → Filed p t (c ∷ calls) v
Filed-first p c calls h (some_answers, all_answers) =
    (AnswersSome-first c calls h some_answers, λ e. Answers-trans (c ∷ []) calls h (all_answers e))

-- A record whose emissions may have raised, and what follows if they have not
pub Filed-choice :
    (p : Parts) {t u v : Turn} (c : ToolCall) (calls : List ToolCall)
    → Answers t (c ∷ []) u
    → Filed p u calls v
    → Filed p t (c ∷ calls) (if published p u then v else u)
Filed-choice p {t} {u} {v} c calls h k = choose (published p u) refl
  where
    choose : (b : Bool) → published p u ≡ b → Filed p t (c ∷ calls) (if b then v else u)
    choose true e = Filed-first p c calls h k
    choose false e = ((c ∷ [], calls, refl, h), λ f. cc)

pub append_skipped-Filed :
    (p : Parts) (reason code : String) (first : Bool) (cs : List ToolCall) (t : Turn)
    → Filed p t cs (append_skipped p reason code first cs t)
unfolding append_skipped
append_skipped-Filed p reason code first [] t =
    (AnswersSome-all [] (Answers-none refl), λ e. Answers-none refl)
append_skipped-Filed p reason code first (c ∷ cs) t =
    guarded (if first then t else emit (requested c) t) (same first) (
      append_skipped-Filed p reason code false cs (
        record_result p c (failure reason not_executed code)
          (if first then t else emit (requested c) t)))
  where
    conversation_of : Turn → Conversation
    conversation_of u = u.conversation

    same : (b : Bool) → conversation_of (if b then t else emit (requested c) t) ≡ t.conversation
    same true = refl
    same false = refl

    guarded :
        (u : Turn) {v : Turn}
        → u.conversation ≡ t.conversation
        → Filed p (record_result p c (failure reason not_executed code) u) cs v
        → Filed p t (c ∷ cs) (
            if published p u
            then (if published p (record_result p c (failure reason not_executed code) u)
                then v
                else record_result p c (failure reason not_executed code) u)
            else u)
    guarded u {v} e k = choose (published p u) refl
      where
        choose :
            (b : Bool)
            → published p u ≡ b
            → Filed p t (c ∷ cs) (
                if b
                then (if published p (record_result p c (failure reason not_executed code) u)
                    then v
                    else record_result p c (failure reason not_executed code) u)
                else u)
        choose true g =
            Filed-choice p c cs
              (Answers-same e (record_result-Answers p c (failure reason not_executed code) u)) k
        choose false g = (([], c ∷ cs, refl, Answers-none e), λ f. cc)

-- Only the conversation counts.
pub Answers-to :
    {t u : Turn} {cs : List ToolCall} {c : Controller}
    → Answers t cs u
    → Answers t cs (with_controller c u)
Answers-to h = record { results = h.results; requests = h.requests }

pub aborted-Filed :
    (p : Parts) (c : ToolCall) (r : ToolResult) (rest : List ToolCall) (reason code : String)
    (t : Turn)
    → Filed p t (c ∷ rest) (abort_batch p c r rest reason code t)
aborted-Filed p c r rest reason code t =
    Filed-choice p c rest (record_result-Answers p c r t)
      (append_skipped-Filed p reason code false rest (record_result p c r t))

pub run_tool-conversation :
    (w : World) (c : ToolCall) (t : Turn) → (run_tool w c t).0.conversation ≡ t.conversation
unfolding run_tool cancel
run_tool-conversation w c t = ground arith

pub request_approval-conversation :
    (w : World) (c : ToolCall) (policy : PolicyResult) (t : Turn)
    → (request_approval w c policy t).0.conversation ≡ t.conversation
unfolding request_approval cancel
request_approval-conversation w c policy t = ground arith

pub after_asking-conversation :
    (w : World) (c : ToolCall) (policy : PolicyResult) (t : Turn) (a : Asked)
    → (after_asking w c policy (t, a)).0.conversation ≡ t.conversation
after_asking-conversation w c policy t (answer true) = run_tool-conversation w c t
after_asking-conversation w c policy t (answer false) = refl
after_asking-conversation w c policy t (no_answer a) = refl

pub decided-conversation :
    (w : World) (c : ToolCall) (policy : PolicyResult) (d : Decision) (t : Turn)
    → (decided w c policy d t).0.conversation ≡ t.conversation
decided-conversation w c policy deny t = refl
decided-conversation w c policy require_approval t =
    after_asking-conversation w c policy (request_approval w c policy t).0
      (request_approval w c policy t).1
    ∙ request_approval-conversation w c policy t
decided-conversation w c policy allow t = run_tool-conversation w c t

pub execute_one-conversation :
    (p : Parts) (w : World) (c : ToolCall) (t : Turn)
    → (execute_one p w c t).0.conversation ≡ t.conversation
unfolding execute_one
execute_one-conversation p w c t = decided-conversation w c (p.decide c) (p.decide c).decision t
