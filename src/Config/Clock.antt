-- ===== src/Config/Clock.antt =====
-- `currentTimeMillis` of lib/config.c.
use chat_hub.Base.{◌+◌, ◌*◌, ◌≤◌, ◌<◌, abs, arith}
use chat_hub.Config.{Timeval, current_time_millis}

-- For microseconds below a million, the milliseconds are the floor of the exact time: they and the
-- next one enclose it.
pub current_time_millis_floor :
    (t : Timeval)
    → t.tv_usec < 1000000
    → (abs (current_time_millis t) * 1000 ≤ t.tv_sec * 1000000 + t.tv_usec)
      × (t.tv_sec * 1000000 + t.tv_usec < (abs (current_time_millis t) + 1) * 1000)
unfolding current_time_millis
current_time_millis_floor t h = omega arith
