-- ===== src/Event/Libev.antt =====
-- src/lib/event/event_libev.h, the other backend of src/lib/event/event.c, and where its timers differ from
-- those of src/lib/event/event_ae.h.
mod Tests
use xsocks.Base.{
  ℕ, zero, suc, ◌<◌, ◌≡◌, ◌↔◌, Bool, true, false, ◌==◌, if◌then◌else◌, arith, Bool-cases, inl, inr,
}
use xsocks.Event.{
  EventType, io, time, signal, unknown, NextTime, no_more, after_ms, event_new, event_time_handler,
}

-- EV_READ, EV_WRITE and EV_UNDEF
pub data Interest : Type 0 where
  reads writes undefined : Interest

-- The watcher of an `eventContext`: `ev_io` of a descriptor, `ev_timer` with the time to its end and its
-- period (in milliseconds, where libev has seconds), `ev_signal`; or none was initialised.
pub data Watcher : Type 0 where
  io_watcher : ℕ → Interest → Watcher
  timer_watcher : ℕ → ℕ → Watcher
  signal_watcher : ℕ → Watcher
  no_watcher : Watcher

abbrev interest : ℕ → Interest
interest flags = if flags == 0 then reads else if flags == 1 then writes else undefined

abbrev is_once : ℕ → Bool
is_once flags = flags == 0

-- `eventApiNewEvent`
pub watcher_new : ℕ → EventType → ℕ → Watcher
watcher_new id io flags = io_watcher id (interest flags)
watcher_new id time flags = timer_watcher id (if is_once flags then 0 else id)
watcher_new id signal flags = signal_watcher id
watcher_new id unknown flags = no_watcher

-- What the code calls of libev: the functions ev_io_start to ev_signal_stop, and for a timer that has
-- ended what libev does by its period.
pub record Ev : Type 1 where
  pub Loop : Type 0
  pub start : Watcher → Loop → Loop
  pub stop : Watcher → Loop → Loop
  pub next : ℕ → NextTime

-- `eventApiAddEvent`; the result is EVENT_OK (`true`) or EVENT_ERR
pub watcher_add : (ev : Ev) → EventType → Watcher → ev.Loop → Bool × ev.Loop
watcher_add ev io w l = (true, ev.start w l)
watcher_add ev time w l = (true, ev.start w l)
watcher_add ev signal w l = (true, ev.start w l)
watcher_add ev unknown w l = (false, l)

-- `eventApiDelEvent`
pub watcher_del : (ev : Ev) → EventType → Watcher → ev.Loop → ev.Loop
watcher_del ev io w l = ev.stop w l
watcher_del ev time w l = ev.stop w l
watcher_del ev signal w l = ev.stop w l
watcher_del ev unknown w l = l

-- what libev does with the watcher when its timer has ended
pub after_end : Ev → Watcher → NextTime
after_end ev (io_watcher fd events) = no_more
after_end ev (timer_watcher first repeat) = ev.next repeat
after_end ev (signal_watcher n) = no_more
after_end ev no_watcher = no_more

-- The documented behaviour of ev_timer: a timer without a period stops, another one starts again.
pub record Timers (ev : Ev) : Type 0 where
  pub stops : ev.next 0 ≡ no_more
  pub again : (repeat : ℕ) → 0 < repeat → ev.next repeat ≡ after_ms repeat

-- The two backends agree on when a timer ends again exactly where it was made to repeat: over libev a timer
-- of EVENT_FLAG_TIME_ONCE is done after its end, over ae it ends again each period. (The period is
-- positive, and the law of `Timers` holds.)
pub event_time_handler-after_end :
    (ev : Ev)
    → Timers ev
    → (ms flags : ℕ) → 0 < ms
    → (event_time_handler (event_new ms time flags) ≡ after_end ev (watcher_new ms time flags))
      ↔ ((flags == 0) ≡ false)
unfolding event_time_handler event_new watcher_new after_end
event_time_handler-after_end ev laws ms flags p = elim (Bool-cases (flags == 0)) [
  | inl once ↦ (λ e. ground (arith, once, e, laws.stops), λ e. absurd cc)
  | inr repeats ↦ (λ e. repeats, λ e. ground (arith, repeats, laws.again ms p))
]
