-- ===== src/Server/Loop/Connections.antt =====
-- The connections that a run of the event loop (server/server.c) handles.
use chat_hub.Base.{ℕ, suc, ◌<◌, ◌≡◌, false, List, [], ◌∷◌, ◌==◌}
use chat_hub.Libevent.{Status, dispatching, leaving, stopped, delay_over}
use chat_hub.Server.Clients
use chat_hub.Server.Loop.{
  Event, accepted, received, notified, listener_failed, interrupted, timer, signal_cb,
}

-- The specification: what an event does to the loop, and the connections that are handled before
-- the loop is stopped.
unfoldable pub next_status : Event → Status → Status
next_status listener_failed status = stopped
next_status interrupted status = signal_cb status
next_status timer status = delay_over status
next_status (accepted bev) status = status
next_status (received o bev uninitialised input) status = status
next_status (notified bev events) status = status

unfoldable pub connection_of : Event → List Clients.Event → List Clients.Event
connection_of (accepted bev) es = Clients.connected bev ∷ es
connection_of (notified bev events) es = Clients.event bev events ∷ es
connection_of _ es = es

unfoldable pub connections : List Event → Status → List Clients.Event
connections [] status = []
connections (e ∷ es) stopped = []
connections (e ∷ es) dispatching = connection_of e (connections es (next_status e dispatching))
connections (e ∷ es) leaving = connection_of e (connections es (next_status e leaving))

-- buffers that libevent made, with descriptors that the table has room for
abbrev pub IsHandled : (ℕ → ℕ) → ℕ → Event → Type 0
IsHandled fd_of cap (accepted bev) = ((bev == 0) ≡ false) × (suc (fd_of bev) < cap)
IsHandled fd_of cap (notified bev events) = suc (fd_of bev) < cap
IsHandled fd_of cap _ = Unit
