-- ===== src/Libevent.antt =====
-- How libevent ends an event loop. `leaving`: `event_base_loopexit` has set its timer.
pub data Status : Type 0 where
  dispatching leaving stopped : Status

-- `event_base_loopbreak`
abbrev pub loopbreak : Status → Status
loopbreak status = stopped

-- `event_base_loopexit` with a delay
abbrev pub loopexit : Status → Status
loopexit stopped = stopped
loopexit _ = leaving

-- the end of the delay
abbrev pub delay_over : Status → Status
delay_over dispatching = dispatching
delay_over _ = stopped
