-- ===== src/Event/Libev/Tests.antt =====
-- The timer of a connection over both backends: src/lib/event/event_ae.h and event_libev.h.
use xsocks.Base.{ℕ, zero, suc, ◌<◌, ◌≡◌, ◌↔◌, refl, false, ◌==◌, arith}
use xsocks.Event.{time, NextTime, no_more, after_ms, event_new, event_time_handler}
use xsocks.Event.Libev.{Ev, Timers, watcher_new, after_end, event_time_handler-after_end}

abbrev next : ℕ → NextTime
next zero = no_more
next (suc n) = after_ms (suc n)

abbrev ev : Ev
ev = record { Loop = Unit; start = λ w l. l; stop = λ w l. l; next = next }

again : (n : ℕ) → 0 < n → next n ≡ after_ms n
again zero p = absurd (omega arith)
again (suc n) p = refl

abbrev laws : Timers ev
laws = record { stops = refl; again = again }

-- a timer of a minute, which repeats
event_time_handler-after_end_example :
    (event_time_handler (event_new 60000 time 1) ≡ after_end ev (watcher_new 60000 time 1))
    ↔ ((1 == 0) ≡ false)
event_time_handler-after_end_example = event_time_handler-after_end ev laws 60000 1 (omega arith)
