-- ===== src/History/Pruning/Units.antt =====
-- agent/runtime/history/pruning.py: writing by index, unit after unit, against pruning each unit on its own.
use my_coding_agent.Base.{
  ℕ, ◌+◌, Bool, true, false, List, [], ◌∷◌, ◌++◌, map, length, length-append, length-map, subst,
  append_assoc, ◌≡◌, refl, sym, ap, ◌∙◌, arith, if◌then◌else◌,
}
use my_coding_agent.Messages.{Message}
use my_coding_agent.History.Units.{AtomicHistoryUnit, parse_atomic_history, flatten}
use my_coding_agent.History.Units.Partition.{
  Contiguous, parse_atomic_history-Contiguous, flatten-parse_atomic_history,
}
use my_coding_agent.History.Pruning.{
  ToolResultPruner, prune_message, put_message, prune_first, prune_at, is_protected, prune_unit,
  prune_units, prune,
}

abbrev pub pruned_message : ToolResultPruner → Message → Message
pruned_message p m = (prune_message p m).0

-- Each unit that is not protected, with its messages pruned one by one
abbrev pub pruned_units : ToolResultPruner → List AtomicHistoryUnit → List Message
pruned_units p [] = []
pruned_units p (u ∷ others) =
    (if is_protected p u others then u.messages else map (pruned_message p) u.messages)
    ++ pruned_units p others

put_message-messages : (x : Message × ℕ) (xs : List Message × ℕ) → (put_message x xs).0 ≡ x.0 ∷ xs.0
put_message-messages (m, n) (ms, k) = refl

prune_first-map :
    (p : ToolResultPruner) (ms rest : List Message)
    → (prune_first p (length ms) (ms ++ rest)).0 ≡ map (pruned_message p) ms ++ rest
prune_first-map p [] rest = refl
prune_first-map p (m ∷ ms) rest =
    put_message-messages (prune_message p m) (prune_first p (length ms) (ms ++ rest))
    ∙ ap (λ xs. pruned_message p m ∷ xs) (prune_first-map p ms rest)

prune_at-map :
    (p : ToolResultPruner) (front ms rest : List Message)
    → (prune_at p (length front) (length ms) (front ++ (ms ++ rest))).0
      ≡ front ++ (map (pruned_message p) ms ++ rest)
prune_at-map p [] ms rest = prune_first-map p ms rest
prune_at-map p (x ∷ front) ms rest =
    put_message-messages (x, 0) (prune_at p (length front) (length ms) (front ++ (ms ++ rest)))
    ∙ ap (λ xs. x ∷ xs) (prune_at-map p front ms rest)

-- One unit behind those that are done
prune_unit-pruned :
    (p : ToolResultPruner) (u : AtomicHistoryUnit) (others : List AtomicHistoryUnit)
    (front rest : List Message) (messages : List Message) (n : ℕ)
    → u.start_index ≡ length front
    → messages ≡ front ++ (u.messages ++ rest)
    → (prune_unit p u others (messages, n)).0
      ≡ front
        ++ ((if is_protected p u others then u.messages else map (pruned_message p) u.messages)
            ++ rest)
prune_unit-pruned p u others front rest messages n starts e =
    choose (is_protected p u others) (prune_at p u.start_index (length u.messages) messages)
      (rw (starts, e) (prune_at-map p front u.messages rest))
  where
    messages_of : List Message × ℕ → List Message
    messages_of state = state.0

    choose :
        (b : Bool) (pruned : List Message × ℕ)
        → pruned.0 ≡ front ++ (map (pruned_message p) u.messages ++ rest)
        → messages_of (if b then (messages, n) else (pruned.0, n + pruned.1))
          ≡ front ++ ((if b then u.messages else map (pruned_message p) u.messages) ++ rest)
    choose true pruned k = e
    choose false pruned k = k

length-choice :
    (f : Message → Message) (b : Bool) (ms : List Message)
    → length (if b then ms else map f ms) ≡ length ms
length-choice f true ms = refl
length-choice f false ms = length-map f ms

prune_units-pruned_units :
    (p : ToolResultPruner) (total : ℕ) (us : List AtomicHistoryUnit) (front : List Message)
    (state : List Message × ℕ)
    → Contiguous (length front) total us
    → state.0 ≡ front ++ flatten us
    → (prune_units p us state).0 ≡ front ++ pruned_units p us
unfolding flatten
prune_units-pruned_units p total [] front state c e = e
prune_units-pruned_units p total (u ∷ us) front (messages, n) (starts, ordered, long, rest) e =
    let done = if is_protected p u us then u.messages else map (pruned_message p) u.messages in
    prune_units-pruned_units p total us (front ++ done) (prune_unit p u us (messages, n))
      (rw
        (
          length-append front done,
          length-choice (pruned_message p) (is_protected p u us) u.messages,
        )
        (subst (λ i. Contiguous i total us) (omega (arith, long, ordered)) rest))
      (prune_unit-pruned p u us front (flatten us) messages n starts e
        ∙ sym (append_assoc front done (flatten us)))
    ∙ append_assoc front done (pruned_units p us)

-- Pruning, which writes into the copied transcript by index, gives the units of the history one
-- after another: a protected unit (an open one, or the last one if it is a tool interaction that
-- is to be protected) as it stands, any other with its messages pruned one by one.
pub prune-pruned_units :
    (p : ToolResultPruner) (history : List Message)
    → (prune p history).messages ≡ pruned_units p (parse_atomic_history history)
unfolding prune
prune-pruned_units p history =
    prune_units-pruned_units p (length history) (parse_atomic_history history) [] (history, 0)
      (parse_atomic_history-Contiguous history) (sym (flatten-parse_atomic_history history))
