-- ===== src/Event.antt =====
-- src/lib/event/event.c over src/lib/event/event_ae.h: events, and whether they are known to the loop.
-- The loop itself (ae of redis) and the signals of the process are parameters.
pub mod Added
pub mod Libev
use xsocks.Base.{ℕ, Bool, true, false, Option, none, some, ◌==◌, if◌then◌else◌}

-- EVENT_TYPE_IO, EVENT_TYPE_TIME, EVENT_TYPE_SIGNAL, and any other number
pub data EventType : Type 0 where
  io time signal unknown : EventType

-- What the code calls of ae and the system. `create_file_event` and `sigaction` say whether they
-- succeed, `create_time_event` returns the number of the timer, or none for AE_ERR.
pub record Ae : Type 1 where
  pub Loop : Type 0
  pub create_file_event : ℕ → ℕ → Loop → Bool × Loop
  pub delete_file_event : ℕ → ℕ → Loop → Loop
  pub create_time_event : ℕ → Loop → Option ℕ × Loop
  pub delete_time_event : ℕ → Loop → Loop
  pub sigaction : ℕ → Loop → Bool × Loop
  pub signal_default : ℕ → Loop → Loop

-- `event`, with the `mask` of its `eventContext`; `attached` says that `el` is not NULL.
pub record LoopEvent : Type 0 where
  pub id : ℕ
  pub type : EventType
  pub flags : ℕ
  pub attached : Bool
  pub mask : ℕ

abbrev ae_none : ℕ
ae_none = 0

abbrev ae_readable : ℕ
ae_readable = 1

abbrev ae_writable : ℕ
ae_writable = 2

abbrev event_flag_read : ℕ
event_flag_read = 0

abbrev event_flag_write : ℕ
event_flag_write = 1

-- EVENT_FLAG_TIME_ONCE, which the code uses as a condition
abbrev event_flag_time_once : Bool
event_flag_time_once = false

-- What a timer's handler returns to ae: AE_NOMORE, or the milliseconds to the next time.
pub data NextTime : Type 0 where
  no_more : NextTime
  after_ms : ℕ → NextTime

-- `eventNew` with `eventApiNewEvent`
unfoldable pub event_new : ℕ → EventType → ℕ → LoopEvent
event_new id type flags = record {
  id = id;
  type = type;
  flags = flags;
  attached = false;
  mask =
      if flags == event_flag_read
      then ae_readable
      else if flags == event_flag_write
      then ae_writable
      else ae_none;
}

-- `eventTimeHandler`
unfoldable pub event_time_handler : LoopEvent → NextTime
event_time_handler e = if event_flag_time_once then no_more else after_ms e.id

module _ (ae : Ae) where
  open ae use {
    Loop, create_file_event, delete_file_event, create_time_event, delete_time_event, sigaction,
    signal_default,
  }

  -- the loop, and for which signals the table `signals` has an event
  pub record Loops : Type 0 where
    pub loop : Loop
    pub signals : ℕ → Bool

  abbrev Done : Type 0
  Done = Bool × LoopEvent × Loops

  set_signal : ℕ → Bool → (ℕ → Bool) → ℕ → Bool
  set_signal n value table k = if k == n then value else table k

  -- `eventApiAddEvent` by the type; the result is EVENT_OK (`true`) or EVENT_ERR
  api_add_as : EventType → LoopEvent → Loops → Done
  unfolding set_signal
  api_add_as io e l =
      let (made, loop) = create_file_event e.id e.mask l.loop in (made, e, record l { loop = loop })
  api_add_as time e l =
      let (made, loop) = create_time_event e.id l.loop in
      elim made [
        | none ↦ (false, e, record l { loop = loop })
        | some number ↦ (true, record e { mask = number }, record l { loop = loop })
      ]
  api_add_as signal e l =
      let (made, loop) = sigaction e.id l.loop in
      if l.signals e.id
      then (false, e, l)
      else if made
      then (true, e, record { loop = loop; signals = set_signal e.id true l.signals })
      else (false, e, record l { loop = loop })
  api_add_as unknown e l = (false, e, l)

  pub event_api_add_event : LoopEvent → Loops → Bool × LoopEvent × Loops
  unfolding api_add_as
  event_api_add_event e l = api_add_as e.type e l

  -- `eventAdd`: `el` is set before the loop is asked.
  pub event_add : LoopEvent → Loops → Bool × LoopEvent × Loops
  unfolding event_api_add_event
  event_add e l =
      if e.attached then (true, e, l) else event_api_add_event (record e { attached = true }) l

  -- `eventApiDelEvent`
  pub event_api_del_event : LoopEvent → Loops → Loops
  unfolding set_signal
  event_api_del_event e l = elim e.type [
    | io ↦ record l { loop = delete_file_event e.id e.mask l.loop }
    | time ↦ record l { loop = delete_time_event e.mask l.loop }
    | signal ↦ record {
      loop = signal_default e.id l.loop;
      signals = set_signal e.id false l.signals;
    }
    | unknown ↦ l
  ]

  -- `eventDel` of an event that is not NULL
  pub event_del : LoopEvent → Loops → LoopEvent × Loops
  unfolding event_api_del_event
  event_del e l =
      if e.attached then (record e { attached = false }, event_api_del_event e l) else (e, l)
