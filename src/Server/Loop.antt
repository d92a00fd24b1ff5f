-- ===== src/Server/Loop.antt =====
-- The event loop as server/server.c uses it: what each callback does to the state and to the loop.
pub mod Connections
pub mod Ends
pub mod Table
pub mod Calm
pub mod Stops
use chat_hub.Base.{ℕ, List, [], ◌∷◌, ℤ}
use chat_hub.Exec.{Exec, pure, ◌>>=◌, ◌>>◌}
use chat_hub.Libevent.{Status, dispatching, leaving, stopped, loopbreak, loopexit, delay_over}
use chat_hub.Text.{Bytes}
use chat_hub.Message.{Parson}
use chat_hub.Dao.Interface.{Dao}
use chat_hub.Server.{State, Outside}
use chat_hub.Server.Input.{listener_cb, eventcb, readcb}

-- What libevent reports: a new connection with its buffer, input (with what the stack holds), an
-- event of a buffer, an error of the listener, an interrupt, the end of the exit timer.
pub data Event : Type 0 where
  accepted : ℕ → Event
  received : Outside → ℕ → Bytes → Bytes → Event
  notified : ℕ → ℕ → Event
  listener_failed interrupted timer : Event

abbrev pub listener_errorcb : Status → Status
listener_errorcb status = loopbreak status

-- with a delay of two seconds
abbrev pub signal_cb : Status → Status
signal_cb status = loopexit status

module _ (dao : Dao) (p : Parson) (bufferevent_getfd : ℕ → ℤ) where
  unfoldable pub callback : Event → Status → Exec (State dao.Store) Status
  callback (accepted bev) status = do listener_cb dao bufferevent_getfd bev; pure status
  callback (received o bev uninitialised input) status = do
    readcb dao p bufferevent_getfd o bev uninitialised input
    pure status
  callback (notified bev events) status = do eventcb dao bufferevent_getfd bev events; pure status
  callback listener_failed status = pure (listener_errorcb status)
  callback interrupted status = pure (signal_cb status)
  callback timer status = pure (delay_over status)

  -- `event_base_dispatch` on the events that come, until the loop is stopped
  unfoldable pub dispatch_events : List Event → Status → Exec (State dao.Store) Status
  dispatch_events [] status = pure status
  dispatch_events (e ∷ es) stopped = pure stopped
  dispatch_events (e ∷ es) dispatching = do next ← callback e dispatching; dispatch_events es next
  dispatch_events (e ∷ es) leaving = do next ← callback e leaving; dispatch_events es next
