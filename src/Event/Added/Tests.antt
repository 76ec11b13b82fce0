-- ===== src/Event/Added/Tests.antt =====
-- A loop that takes no event: src/lib/event/event.c.
use xsocks.Base.{◌≡◌, refl, true, false, none}
use xsocks.Event.{
  io, Ae, LoopEvent, event_new, Loops, api_add_as, event_api_add_event, event_add,
  event_api_del_event, event_del,
}
use xsocks.Event.Added.{event_add-event_add}

abbrev full : Ae
full = record {
  Loop = Unit;
  create_file_event = λ fd mask l. (false, l);
  delete_file_event = λ fd mask l. l;
  create_time_event = λ ms l. (none, l);
  delete_time_event = λ number l. l;
  sigaction = λ n l. (false, l);
  signal_default = λ n l. l;
}

abbrev event : LoopEvent
event = record { id = 3; type = io; flags = 0; attached = false; mask = 1 }

made : event_new 3 io 0 ≡ event
unfolding event_new
made = refl

abbrev loops : Loops full
loops = record { loop = tt; signals = λ n. false }

refused : event_add full event loops ≡ (false, record event { attached = true }, loops)
unfolding event_add event_api_add_event api_add_as
refused = refl

event_add-event_add_example :
    let e' = (event_add full event loops).1 in
    (event_add full e' loops ≡ (true, e', loops))
    × (event_del full e' loops
        ≡ (record e' { attached = false }, event_api_del_event full e' loops))
    × (event_add full (event_del full e' loops).0 loops
        ≡ event_api_add_event full (record e' { attached = true }) loops)
event_add-event_add_example = event_add-event_add full event loops loops
