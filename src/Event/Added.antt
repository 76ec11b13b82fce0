-- ===== src/Event/Added.antt =====
-- When an event of src/lib/event/event.c is known to the loop.
mod Tests
use xsocks.Base.{
  ℕ, ◌≡◌, refl, ap, ◌∙◌, Bool, true, false, Option, none, some, arith, Bool-cases, Option-cases,
  inl, inr,
}
use xsocks.Event.{
  EventType, io, time, signal, unknown, Ae, LoopEvent, NextTime, no_more, after_ms,
  event_time_handler, Loops, api_add_as, event_api_add_event, event_add, event_api_del_event,
  event_del,
}

-- A timer's handler never tells ae to stop it, also for an event that was made by NEW_EVENT_ONCE.
pub event_time_handler-repeats : (e : LoopEvent) → event_time_handler e ≡ after_ms e.id
unfolding event_time_handler
event_time_handler-repeats e = refl

module _ (ae : Ae) where
  api_add-attached :
      (t : EventType) (e : LoopEvent) (l : Loops ae) → (api_add_as ae t e l).1.attached ≡ e.attached
  unfolding api_add_as
  api_add-attached io e l = refl
  api_add-attached time e l = ground arith
  api_add-attached signal e l = ground arith
  api_add-attached unknown e l = refl

  -- behind `eventAdd` an event counts as added, whether the loop has taken it or not
  event_add-attached : (e : LoopEvent) (l : Loops ae) → (event_add ae e l).1.attached ≡ true
  unfolding event_add event_api_add_event
  event_add-attached e l = ground (arith, api_add-attached e.type (record e { attached = true }) l)

  add_again : (e : LoopEvent) (l : Loops ae) → e.attached ≡ true → event_add ae e l ≡ (true, e, l)
  unfolding event_add
  add_again e l h = rw (event_add, h) refl

  add_fresh :
      (e : LoopEvent) (l : Loops ae)
      → e.attached ≡ false
      → event_add ae e l ≡ event_api_add_event ae (record e { attached = true }) l
  unfolding event_add
  add_fresh e l h = rw (event_add, h) refl

  del_added :
      (e : LoopEvent) (l : Loops ae)
      → e.attached ≡ true
      → event_del ae e l ≡ (record e { attached = false }, event_api_del_event ae e l)
  unfolding event_del
  del_added e l h = rw (event_del, h) refl

  -- Once `eventAdd` was called for an event, whether it returned EVENT_OK or EVENT_ERR, every later
  -- `eventAdd` of it returns EVENT_OK and does nothing: it leaves the event and whatever state the loop
  -- is in by then as they were. `eventDel` then asks the loop to delete it, and after that an `eventAdd`
  -- asks the loop again. So an event that the loop has refused counts as added.
  pub event_add-event_add :
      (e : LoopEvent) (l later : Loops ae)
      → let e' = (event_add ae e l).1 in
        (event_add ae e' later ≡ (true, e', later))
        × (event_del ae e' later
            ≡ (record e' { attached = false }, event_api_del_event ae e' later))
        × (event_add ae (event_del ae e' later).0 later
            ≡ event_api_add_event ae (record e' { attached = true }) later)
  event_add-event_add e l later =
      let e' = (event_add ae e l).1 in
      let h : e'.attached ≡ true = event_add-attached e l in
      (
        add_again e' later h,
        del_added e' later h,
        ap (λ r. event_add ae r.0 later) (del_added e' later h)
            ∙ add_fresh (record e' { attached = false }) later refl,
      )
