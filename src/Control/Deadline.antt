-- ===== src/Control/Deadline.antt =====
-- The execution deadline: time runs while the Turn works, and stands still during an approval.
use my_coding_agent.Base.{ℕ, ◌+◌, ◌-◌, ◌≤◌, ◌≡◌, refl, true, none, some, arith}
use my_coding_agent.Control.{returned, Controller, remaining_time, pause_deadline, resume_deadline}

-- While the deadline is not paused, every moment that passes is taken off the remaining time.
remaining_time_runs :
    (n d : ℕ) (c : Controller)
    → c.paused_at ≡ none
    → remaining_time (n + d) c ≡ remaining_time n c - d
unfolding remaining_time
remaining_time_runs n d c h = ground arith

-- While it is paused, none is.
remaining_time_stands :
    (n m p : ℕ) (c : Controller)
    → c.paused_at ≡ some p
    → p ≤ n
    → n ≤ m
    → remaining_time m c ≡ remaining_time n c
unfolding remaining_time
remaining_time_stands n m p c h k l = ground arith

-- What a pause that began at `p` and ended at `r` does to the remaining time that is read at the
-- moment `n` during the pause, and at the moment `t` after it.
pub record Excludes (p r n t : ℕ) (c paused resumed : Controller) : Type 0 where
  pub paused_ok : paused.paused_at ≡ some p
  pub during : remaining_time n paused ≡ remaining_time p c
  pub after : remaining_time t resumed ≡ remaining_time p c - (t - r)
  pub running : resumed.paused_at ≡ none

module _ (n p r : ℕ) (c : Controller) where
  pause-returned :
      c.paused_at ≡ none
      → (pause_deadline n p c).1 ≡ returned
      → (pause_deadline n p c).0 ≡ record c { paused_at = some p; deadline_changed = true }
  unfolding pause_deadline
  pause-returned h e = ground arith

  resume-paused : resume_deadline r (record c { paused_at = some p; deadline_changed = true }) ≡ (
    record c { paused_time = c.paused_time + (r - p); paused_at = none; deadline_changed = true },
    returned,
  )
  unfolding resume_deadline
  resume-paused = refl

  Excludes-paused :
      (d t : ℕ)
      → c.paused_at ≡ none
      → p ≤ r
      → p ≤ d
      → r ≤ t
      → Excludes p r d t c
          (record c { paused_at = some p; deadline_changed = true })
          (record c {
            paused_time = c.paused_time + (r - p);
            paused_at = none;
            deadline_changed = true;
          })
  unfolding remaining_time
  Excludes-paused d t h l k j = record {
    paused_ok = refl;
    during = ground arith;
    after = ground arith;
    running = refl;
  }

-- The time between a pause that is granted at `p` and its end at `r` is not charged to the Turn:
-- at a moment `d` during the pause the remaining time is what it was at `p`, and at a moment `t`
-- after it the remaining time is that, less the time since `r`.
pub pause_resume-Excludes :
    (n p r d t : ℕ) (c : Controller)
    → c.paused_at ≡ none
    → (pause_deadline n p c).1 ≡ returned
    → p ≤ r
    → p ≤ d
    → r ≤ t
    → let paused = (pause_deadline n p c).0 in
      let (resumed, outcome) = resume_deadline r paused in
      (outcome ≡ returned) × Excludes p r d t c paused resumed
pause_resume-Excludes n p r d t c h e l k j =
    rw (pause-returned n p r c h e, resume-paused n p r c)
      (refl, Excludes-paused n p r c d t h l k j)
