-- ===== src/Receipts/Swept.antt =====
-- pkg/connector/cache_sweep.go and receipt_sync.go: a sweep changes no later check of a read position.
use mautrix_teams.Base.{
  Bool, not, ◌&&◌, ◌-◌, ◌≤◌, ◌≡◌, refl, true, false, Option, none, some, if◌then◌else◌, arith,
}
use mautrix_teams.Base.Text.{Text}
use mautrix_teams.Base.Assoc.{IsMap, lookup}
use mautrix_teams.Client.{Client}
use mautrix_teams.Poll.Time.{Time, sub_lt, is_zero}
use mautrix_teams.Poll.Wake.{thread_is_active, active_since, thread_active_window}
use mautrix_teams.Poll.Sweep.{sweep_caches, receipt_idle_poll_interval}
use mautrix_teams.Poll.Sweep.Kept.{kept, lookup-sweep_before}
use mautrix_teams.Receipts.{should_poll_receipts, last_check}

active-kept :
    (now later : Time) (o : Option Time)
    → now ≤ later
    → active_since later (kept (now - thread_active_window) o) ≡ active_since later o
unfolding active_since
active-kept now later none h = refl
active-kept now later (some v) h = ground (arith, h)

-- Whether a check has to wait for its turn.
abbrev waits : Time → Time → Bool → Bool
waits later last active =
    not (is_zero last) && sub_lt later last (if active then 0 else receipt_idle_poll_interval)

due-kept :
    {S : Type 0} (now later : Time) (o : Option Time) (active : Bool) (s s' u u' : S)
    → now ≤ later
    → (if◌then◌else◌ {A = Bool × S}
        (waits later (last_check (kept (now - receipt_idle_poll_interval) o)) active)
        (false, s)
        (true, s')).0
      ≡ (if◌then◌else◌ {A = Bool × S} (waits later (last_check o) active) (false, u) (true, u')).0
unfolding last_check
due-kept now later none active s s' u u' h = refl
due-kept now later (some v) true s s' u u' h = ground (arith, h)
due-kept now later (some v) false s s' u u' h = ground (arith, h)

module _ {E : Type 0} where
  -- A sweep now changes no check of a thread's read positions later: the thread is due for it
  -- exactly when it would have been. No key of the two maps stands twice.
  pub should_poll_receipts-sweep_caches :
      (c : Client E) (now later : Time) (t : Text)
      → now ≤ later
      → IsMap c.thread_active
      → IsMap c.receipt_poll
      → (should_poll_receipts (sweep_caches c now).0 t later).0 ≡ (should_poll_receipts c t later).0
  unfolding should_poll_receipts sweep_caches thread_is_active last_check
  should_poll_receipts-sweep_caches c now later t h active polled =
      rw
        (
          lookup-sweep_before c.thread_active (now - thread_active_window) t active,
          lookup-sweep_before c.receipt_poll (now - receipt_idle_poll_interval) t polled,
          active-kept now later (lookup t c.thread_active) h,
        )
        (due-kept now later (lookup t c.receipt_poll)
          (active_since later (lookup t c.thread_active)) _ _ _ _ h)
