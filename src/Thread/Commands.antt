-- ===== src/Thread/Commands.antt =====
-- The commands of agent/runtime/thread_runtime.py on a Thread that do not run a Turn.
use my_coding_agent.Base.{
  ℕ, ◌+◌, String, Bool, true, false, ◌||◌, Option, none, some, ◌==◌, not, if◌then◌else◌,
}
use my_coding_agent.Control
use my_coding_agent.Thread.{
  idle, running, waiting_approval, closed, ActiveTurn, ThreadRecord, persist_record, emit,
  turn_event,
}
use my_coding_agent.Thread.Submission.{is_closed}

-- `_set_waiting`
unfoldable pub set_waiting : Bool → String → ThreadRecord → ThreadRecord
set_waiting waiting now r = record r {
  status = if waiting then waiting_approval else running;
  updated_at = now;
}

-- `controller.cancel()` of the active Turn; the task that it cancels runs, so it is not done.
abbrev pub cancel_active : ActiveTurn → ThreadRecord → ThreadRecord × Bool
cancel_active a r =
    let c = Control.cancel false a.controller in
    (record r { active_turn = some (record a { controller = c.controller }) }, c.accepted)

abbrev pub show_cancel : String → ThreadRecord × Bool → ThreadRecord × Bool
show_cancel turn_id (r, true) = (emit (turn_event turn_id "turn_cancel_requested" none "") r, true)
show_cancel turn_id (r, false) = (r, false)

abbrev pub cancel_of : Option ActiveTurn → ThreadRecord → ThreadRecord × Bool
cancel_of none r = (r, false)
cancel_of (some a) r = show_cancel a.turn_id (cancel_active a r)

-- `cancel_turn`; the event is emitted through the Turn's emitter, which is open while it is active.
unfoldable pub cancel_turn : ThreadRecord → ThreadRecord × Bool
cancel_turn r = cancel_of r.active_turn r

abbrev pub close_of : Option ActiveTurn → String → ThreadRecord → ThreadRecord
close_of none now r =
    persist_record (record r { closing = true; updated_at = now; status = closed })
close_of (some a) now r =
    (cancel_active a (
      emit (turn_event a.turn_id "thread_close_requested" none "")
        (record r { closing = true; updated_at = now }))).0

-- `close_thread`
unfoldable pub close_thread : String → ThreadRecord → ThreadRecord × Bool
close_thread now r =
    if is_closed r.status || r.closing then (r, false) else (close_of r.active_turn now r, true)

pub data SettingsUpdate : Type 0 where
  updated : ℕ → SettingsUpdate
  stale thread_closed : SettingsUpdate

-- `update_settings`, with the settings by their version
unfoldable pub update_settings : ℕ → String → ThreadRecord → ThreadRecord × SettingsUpdate
update_settings expected now r =
    if is_closed r.status || r.closing
    then (r, thread_closed)
    else if not (r.settings_version == expected)
    then (r, stale)
    else (
      emit (record { turn_id = none; kind = "settings_updated"; summary = none; detail = "" })
          (record r { settings_version = r.settings_version + 1; updated_at = now }),
      updated (r.settings_version + 1),
    )

abbrev pub aclose_of : Option ActiveTurn → String → ThreadRecord → ThreadRecord
aclose_of (some a) now r = (cancel_active a r).0
aclose_of none now r =
    if is_closed r.status then r else persist_record (record r { status = idle; updated_at = now })

-- What `aclose` does to one Thread
unfoldable pub aclose : String → ThreadRecord → ThreadRecord
aclose now r = aclose_of r.active_turn now r
