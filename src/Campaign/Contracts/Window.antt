-- ===== src/Campaign/Contracts/Window.antt =====
-- The calling window over the minutes of a day.
use call_forge.Prelude.{
  ℕ, ℤ, pos, leb, leb_ℤ, ltb_ℤ, ◌+ℤ◌, ◌*ℤ◌, ◌&&◌, ◌||◌, if◌then◌else◌, not, ◌≡◌, ◌≢◌, arith,
}
use call_forge.Campaign.Contracts.{CallingWindow, start_minutes, end_minutes, contains_time}

-- The window with its ends exchanged.
pub reversed : CallingWindow → CallingWindow
reversed w = record w {
  start_hour = w.end_hour;
  start_minute = w.end_minute;
  end_hour = w.start_hour;
  end_minute = w.start_minute;
}

shared :
    (start end : ℕ) (current : ℤ)
    → start ≢ end
    → (if leb end start
        then leb_ℤ (pos end) current && ltb_ℤ current (pos start)
        else leb_ℤ (pos end) current || ltb_ℤ current (pos start))
      ≡ not (
          if leb start end
          then leb_ℤ (pos start) current && ltb_ℤ current (pos end)
          else leb_ℤ (pos start) current || ltb_ℤ current (pos end))
shared start end current h = ground arith

-- A window and its reverse share out the day: if the two ends differ then a time lies in exactly one
-- of them, whether or not the window runs over midnight.
pub contains_time-reversed :
    (w : CallingWindow) (hour minute : ℤ)
    → start_minutes w ≢ end_minutes w
    → contains_time (reversed w) hour minute ≡ not (contains_time w hour minute)
unfolding contains_time reversed start_minutes end_minutes
contains_time-reversed w hour minute h =
    shared (start_minutes w) (end_minutes w) (hour *ℤ pos 60 +ℤ minute) h
