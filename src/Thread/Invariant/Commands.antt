-- ===== src/Thread/Invariant/Commands.antt =====
-- The commands of Thread/Commands.antt keep a Thread well-formed.
use my_coding_agent.Base.{
  ℕ, String, Bool, true, false, ◌&&◌, ◌||◌, Option, none, some, ◌≡◌, refl, ap, sym, ◌∙◌, arith,
  is_some, Bool-cases, inl, inr, ◌==◌, if◌then◌else◌, subst,
}
use my_coding_agent.Control.{Controller}
use my_coding_agent.Thread.{
  running, waiting_approval, ActiveTurn, ThreadEvent, ThreadRecord, stored_active, emit,
}
use my_coding_agent.Thread.Submission.{is_closed}
use my_coding_agent.Thread.Commands.{
  set_waiting, cancel_active, cancel_of, show_cancel, close_of, aclose_of, update_settings,
}
use my_coding_agent.Thread.Restart.{is_working}
use my_coding_agent.Thread.Invariant.{
  IsNew, IsCoherent, IsWellFormed, persist-IsSaved, emit-IsSaved, IsWellFormed-of,
}

-- The commands that change neither the Turn under way nor the counters.
pub set_waiting-IsWellFormed :
    (waiting : Bool) (now : String) (r : ThreadRecord)
    → IsWellFormed r
    → is_some r.active_turn ≡ true
    → IsWellFormed (set_waiting waiting now r)
unfolding set_waiting
set_waiting-IsWellFormed waiting now r h e = record {
  coherent = record {
    quiet = h.coherent.quiet;
    status = waits waiting ∙ sym e;
    new = h.coherent.new;
    counted = h.coherent.counted;
    exclusive = h.coherent.exclusive;
    closes = rw e refl;
  };
  leased = h.leased;
  restorable = h.restorable;
}
  where
    waits : (b : Bool) → is_working (if b then waiting_approval else running) ≡ true
    waits true = refl
    waits false = refl

-- A record with a Turn under way, whose controller, closing mark and time do not matter.
with_active-IsCoherent :
    (r : ThreadRecord) (a : ActiveTurn) (c : Controller) (closing : Bool) (now : String)
    → r.active_turn ≡ some a
    → IsCoherent r
    → IsCoherent (record r {
      active_turn = some (record a { controller = c });
      closing = closing;
      updated_at = now;
    })
with_active-IsCoherent r a c closing now e h = record {
  quiet = h.quiet;
  status = h.status ∙ ap is_some e;
  new = subst (λ o. IsNew (stored_active o) r.latest_turn) e h.new;
  counted = h.counted;
  exclusive = ap (λ o. is_some o && is_some r.preflight_turn_id) (sym e) ∙ h.exclusive;
  closes = refl;
}

cancel_active-IsWellFormed :
    (a : ActiveTurn) (r : ThreadRecord)
    → r.active_turn ≡ some a
    → IsWellFormed r
    → IsWellFormed (cancel_active a r).0
cancel_active-IsWellFormed a r e h = record {
  coherent = with_active-IsCoherent r a _ r.closing r.updated_at e h.coherent;
  leased = h.leased ∙ ap is_some e;
  restorable = h.restorable;
}

emit-IsWellFormed : (e : ThreadEvent) (r : ThreadRecord) → IsWellFormed r → IsWellFormed (emit e r)
emit-IsWellFormed e r h = IsWellFormed-of _ (emit-IsSaved e r h.coherent h.restorable) h.leased

show_cancel-IsWellFormed :
    (id : String) (s : ThreadRecord × Bool) → IsWellFormed s.0 → IsWellFormed (show_cancel id s).0
show_cancel-IsWellFormed id (r, true) h = emit-IsWellFormed _ r h
show_cancel-IsWellFormed id (r, false) h = h

pub cancel_of-IsWellFormed :
    (o : Option ActiveTurn) (r : ThreadRecord)
    → r.active_turn ≡ o
    → IsWellFormed r
    → IsWellFormed (cancel_of o r).0
cancel_of-IsWellFormed none r e h = h
cancel_of-IsWellFormed (some a) r e h =
    show_cancel-IsWellFormed a.turn_id (cancel_active a r) (cancel_active-IsWellFormed a r e h)

pub close_of-IsWellFormed :
    (o : Option ActiveTurn) (now : String) (r : ThreadRecord)
    → r.active_turn ≡ o
    → IsWellFormed r
    → IsWellFormed (close_of o now r)
close_of-IsWellFormed none now r e h =
    IsWellFormed-of _
      (persist-IsSaved _
        (record {
          quiet = h.coherent.quiet;
          status = sym (ap is_some e);
          new = h.coherent.new;
          counted = h.coherent.counted;
          exclusive = h.coherent.exclusive;
          closes = ground arith;
        })
        h.restorable)
      h.leased
close_of-IsWellFormed (some a) now r e h =
    let marked : IsCoherent (record r { closing = true; updated_at = now }) = record {
      quiet = h.coherent.quiet;
      status = h.coherent.status;
      new = h.coherent.new;
      counted = h.coherent.counted;
      exclusive = h.coherent.exclusive;
      closes = ap (λ o. is_some o || false || is_closed r.status) e;
    } in
    cancel_active-IsWellFormed a _ e
      (IsWellFormed-of _ (emit-IsSaved _ _ marked h.restorable) h.leased)

pub aclose_of-IsWellFormed :
    (o : Option ActiveTurn) (now : String) (r : ThreadRecord)
    → r.active_turn ≡ o
    → IsWellFormed r
    → IsWellFormed (aclose_of o now r)
aclose_of-IsWellFormed (some a) now r e h = cancel_active-IsWellFormed a r e h
aclose_of-IsWellFormed none now r e h = elim (Bool-cases (is_closed r.status)) [
  | inl shut ↦ rw shut h
  | inr open_still ↦ rw open_still (
      IsWellFormed-of _
        (persist-IsSaved _
          (record {
            quiet = h.coherent.quiet;
            status = sym (ap is_some e);
            new = h.coherent.new;
            counted = h.coherent.counted;
            exclusive = h.coherent.exclusive;
            closes = ground (arith, h.coherent.closes, ap is_some e);
          })
          h.restorable)
        h.leased)
]

pub update_settings-IsWellFormed :
    (expected : ℕ) (now : String) (r : ThreadRecord)
    → IsWellFormed r
    → IsWellFormed (update_settings expected now r).0
unfolding update_settings
update_settings-IsWellFormed expected now r h =
    elim (Bool-cases (is_closed r.status || r.closing)) [
      | inl shut ↦ rw shut h
      | inr open_still ↦ elim (Bool-cases (r.settings_version == expected)) [
        | inl same ↦
            rw (open_still, same)
              (emit-IsWellFormed _ _ (record {
                coherent = record {
                  quiet = h.coherent.quiet;
                  status = h.coherent.status;
                  new = h.coherent.new;
                  counted = h.coherent.counted;
                  exclusive = h.coherent.exclusive;
                  closes = h.coherent.closes;
                };
                leased = h.leased;
                restorable = h.restorable;
              }))
        | inr other ↦ rw (open_still, other) h
      ]
    ]
