-- ===== src/Policy/Gate.antt =====
-- The policy of agent/runtime/policy.py in `_execute_one` of agent/runtime/tool_coordinator.py: what lets a
-- command start.
use my_coding_agent.Base.{
  ℕ, suc, ◌+◌, Bool, true, false, none, some, String, List, [], ◌∷◌, ◌++◌, ◌≡◌, ◌≢◌, refl, sym, ap,
  ◌∙◌, ◌⊎◌, inl, inr, arith, Bool-cases, if◌then◌else◌,
}
use my_coding_agent.Messages.{Fields, ToolCall, get_field}
use my_coding_agent.Control.{Outcome, returned, raised, pause_deadline}
use my_coding_agent.Coordinator.{
  Decision, PolicyResult, Resolution, World, Turn, Parts, Emission, emit, started, requested, done,
  approval_requested, approval_resolved, evidence_recorded, responded, approved, denied, timed_out,
  interrupted, allow, deny, require_approval, Asked, answer, no_answer, asked_of, arrive,
  after_pause, asking_turn, asked, settle_approval, crash, request_approval, after_asking, decided,
  execute_one,
}
use my_coding_agent.Policy.{Lexer}
use my_coding_agent.Policy.Deciding.{ApprovalMode, decide, is_command_tool, command_of, wants_tty}
use my_coding_agent.Policy.Matrix.{IsPlainCommand, allows, decide-IsPlainCommand}

-- How many tool calls were started
abbrev pub starts : List Emission → ℕ
starts [] = 0
starts (started call ∷ es) = suc (starts es)
starts (requested call ∷ es) = starts es
starts (done call r ∷ es) = starts es
starts (approval_requested i call policy ∷ es) = starts es
starts (approval_resolved i r policy ∷ es) = starts es
starts (evidence_recorded e ∷ es) = starts es
starts (responded m n ∷ es) = starts es

starts-append : (es fs : List Emission) → starts (es ++ fs) ≡ starts es + starts fs
starts-append [] fs = omega arith
starts-append (started call ∷ es) fs = omega (arith, starts-append es fs)
starts-append (requested call ∷ es) fs = starts-append es fs
starts-append (done call r ∷ es) fs = starts-append es fs
starts-append (approval_requested i call policy ∷ es) fs = starts-append es fs
starts-append (approval_resolved i r policy ∷ es) fs = starts-append es fs
starts-append (evidence_recorded e ∷ es) fs = starts-append es fs
starts-append (responded m n ∷ es) fs = starts-append es fs

-- An answer that lets the tool run
abbrev is_yes : Asked → Bool
is_yes (answer b) = b
is_yes (no_answer a) = false

module _ (w : World) (call : ToolCall) (policy : PolicyResult) where
  arrive-emissions : (b : Bool) (t : Turn) → (arrive b t).emissions ≡ t.emissions
  arrive-emissions true t = refl
  arrive-emissions false t = refl

  after_pause-starts :
      (t : Turn) (o : Outcome)
      → starts (after_pause w call policy t o).0.emissions ≡ starts t.emissions
  after_pause-starts t (raised e) = refl
  after_pause-starts t returned =
      let shown : Turn =
        emit (approval_requested w.approval_id call policy) (record t { waiting = true }) in
      asked-starts w.shows_request shown
        (starts-append t.emissions (approval_requested w.approval_id call policy ∷ []))
        (starts-append (arrive w.cancels shown).emissions
            (approval_resolved w.approval_id w.resolution policy ∷ [])
          ∙ omega (
            arith,
            ap starts (arrive-emissions w.cancels shown),
            starts-append t.emissions (approval_requested w.approval_id call policy ∷ []),
          ))
    where
      asked-starts :
          (b : Bool) (shown : Turn)
          → starts shown.emissions ≡ starts t.emissions + 0
          → starts (settle_approval w policy (arrive w.cancels shown)).emissions
            ≡ starts t.emissions
          → starts (asked w shown (settle_approval w policy (arrive w.cancels shown)) b).0.emissions
            ≡ starts t.emissions
      asked-starts true shown h k = k
      asked-starts false shown h k = omega (arith, h)

  after_pause-approved :
      (t : Turn) (o : Outcome)
      → is_yes (after_pause w call policy t o).1 ≡ true
      → w.resolution ≡ approved
  after_pause-approved t (raised e) h = ground arith
  after_pause-approved t returned h =
      let shown : Turn =
        emit (approval_requested w.approval_id call policy) (record t { waiting = true }) in
      by_request w.shows_request shown (settle_approval w policy (arrive w.cancels shown)) h
    where
      by_resolution :
          (resolved : Bool) (r : Resolution)
          → is_yes (if resolved then asked_of r else no_answer crash) ≡ true
          → r ≡ approved
      by_resolution true approved k = refl
      by_resolution true denied k = absurd (ground arith)
      by_resolution true timed_out k = absurd (ground arith)
      by_resolution true interrupted k = absurd (ground arith)
      by_resolution false r k = absurd (ground arith)

      by_request :
          (b : Bool) (shown settled : Turn)
          → is_yes (asked w shown settled b).1 ≡ true
          → w.resolution ≡ approved
      by_request true shown settled k = by_resolution w.shows_resolution w.resolution k
      by_request false shown settled k = absurd (ground arith)

  after_asking-starts :
      (s : Turn × Asked)
      → is_yes s.1 ≡ false
      → starts (after_asking w call policy s).0.emissions ≡ starts s.0.emissions
  after_asking-starts (t, answer true) h = absurd (ground arith)
  after_asking-starts (t, answer false) h = refl
  after_asking-starts (t, no_answer a) h = refl

  asking-approved :
      (t : Turn)
      → starts (after_asking w call policy (request_approval w call policy t)).0.emissions
        ≢ starts t.emissions
      → w.resolution ≡ approved
  unfolding request_approval
  asking-approved t h = elim (Bool-cases (is_yes (request_approval w call policy t).1)) [
    | inl yes_given ↦
        after_pause-approved (asking_turn w call policy t)
          (pause_deadline w.pause_now w.paused_now t.controller).1 yes_given
    | inr refused ↦ absurd (
        h (
          after_asking-starts (request_approval w call policy t) refused
          ∙ after_pause-starts (asking_turn w call policy t)
              (pause_deadline w.pause_now w.paused_now t.controller).1))
  ]

  decided-starts :
      (decision : Decision) (t : Turn)
      → starts (decided w call policy decision t).0.emissions ≢ starts t.emissions
      → (decision ≡ allow) ⊎ (w.resolution ≡ approved)
  decided-starts allow t h = inl refl
  decided-starts deny t h = absurd (h refl)
  decided-starts require_approval t h = inr (asking-approved t h)

allows_of : (policy : PolicyResult) → policy.decision ≡ allow → allows policy ≡ true
allows_of policy e = ap is_allow e
  where
    is_allow : Decision → Bool
    is_allow d = elim d [ allow ↦ true | _ ↦ false ]

-- If the coordinator's policy is this one, and a call of a command tool with valid arguments and a
-- command that is not blank is started, then the user has approved it, or it asks for no terminal,
-- the scan finds no shell operator in it, and its chain of wrappers, each taking its target from
-- its own arguments, comes down to an executable that, with its arguments, neither deletes nor
-- takes rights nor goes to the network by the policy's own lists.
pub execute_one-IsPlainCommand :
    (lexer : Lexer) (mode : ApprovalMode) (p : Parts) (w : World) (call : ToolCall) (t : Turn)
    (fields : Fields) (command : String)
    → p.decide call ≡ decide lexer mode call
    → is_command_tool call.name ≡ true
    → call.arguments_error ≡ none
    → call.arguments ≡ some fields
    → command_of (get_field "command" fields) ≡ some command
    → starts (execute_one p w call t).0.emissions ≢ starts t.emissions
    → ((wants_tty (get_field "tty" fields) ≡ false) × IsPlainCommand lexer command)
      ⊎ (w.resolution ≡ approved)
unfolding execute_one
execute_one-IsPlainCommand lexer mode p w call t fields command same named valid given full h =
    elim (decided-starts w call (p.decide call) (p.decide call).decision t h) [
      | inl allowed ↦ inl (
          decide-IsPlainCommand lexer mode call fields command named valid given full
            (allows_of (decide lexer mode call) (ap (λ x. x.decision) (sym same) ∙ allowed)))
      | inr asked ↦ inr asked
    ]
