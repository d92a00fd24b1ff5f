-- ===== src/Server/Main/Examples.antt =====
-- The theorems on whole runs of the server at concrete events.
use chat_hub.Base.{◌≡◌, refl, true, false, none, List, [], ◌∷◌, pos, arith, if◌then◌else◌}
use chat_hub.Run.{ok, fault, null_pointer, uninitialised}
use chat_hub.Exec.{value}
use chat_hub.Hashtable.{HashMap, hash_init}
use chat_hub.Hashtable.Direct.{IsDirect, hash_init-IsDirect, view}
use chat_hub.Libevent.{dispatching, stopped}
use chat_hub.Message.Codec.{codec}
use chat_hub.Redis.Documented.{Db}
use chat_hub.Redis.Memory.{memory, empty_db}
use chat_hub.Dao.Interface.{redis_dao}
use chat_hub.Server.{State}
use chat_hub.Server.Clients.{table_after}
use chat_hub.Server.Loop.{Event, accepted, notified, interrupted, timer, dispatch_events}
use chat_hub.Server.Loop.Connections.{connections}
use chat_hub.Server.Loop.Ends.{Ends}
use chat_hub.Server.Loop.Stops.{dispatch_events_stops}
use chat_hub.Server.Loop.Table.{Holds, dispatch_events-Ends}
use chat_hub.Server.Main.{Made, start_world, init_event}
use chat_hub.Server.Main.Shutdown.{init_event_faults}

abbrev start : State Db
start = record { clients = hash_init 8; store = empty_db; written = [] }

-- two clients come, the first goes, the server is interrupted, and one more comes too late
abbrev visits : List Event
visits = accepted 1 ∷ accepted 2 ∷ notified 1 17 ∷ interrupted ∷ timer ∷ accepted 3 ∷ []

start-Holds : Holds 8 (view (hash_init 8)) (hash_init 8)
unfolding hash_init
start-Holds = record {
  valid = hash_init-IsDirect 8 (omega arith);
  same_cap = refl;
  reads = λ q. refl;
}

dispatch_events-Ends_example :
    Ends
      (λ s hm.
        Holds 8 (table_after (λ b. b) (view (hash_init 8)) (connections visits dispatching)) hm)
      (dispatch_events (redis_dao memory) codec (λ b. pos b) visits dispatching start)
dispatch_events-Ends_example =
    dispatch_events-Ends (redis_dao memory) codec (λ b. b) 8 visits dispatching start
      (view (hash_init 8)) start-Holds
      (
        (refl, omega arith),
        ((refl, omega arith), (omega arith, (tt, (tt, ((refl, omega arith), tt))))),
      )

abbrev unmade : Made
unmade = record {
  base = true;
  listener = false;
  signal_event = true;
  added = pos 0;
  freed_late = ok tt;
}

init_event_faults_example :
    init_event
      (redis_dao memory)
      codec
      (λ b. pos b)
      unmade
      []
      (start_world
        (redis_dao memory)
        codec
        (λ b. pos b)
        empty_db
        (record { context = none; allocated = 0 })
        (hash_init 8))
    ≡ fault (if true then null_pointer else uninitialised)
init_event_faults_example =
    init_event_faults (redis_dao memory) codec (λ b. pos b) unmade []
      (start_world (redis_dao memory) codec (λ b. pos b) empty_db
        (record { context = none; allocated = 0 }) (hash_init 8))
      refl refl

dispatch_events_stops_example :
    (hm : HashMap) × (dispatch_events (redis_dao memory) codec (λ b. pos b) visits dispatching start
      ≡ ok (value stopped, record { clients = hm; store = empty_db; written = [] }))
    × IsDirect hm
dispatch_events_stops_example =
    dispatch_events_stops (redis_dao memory) codec (λ b. b)
      (accepted 1 ∷ accepted 2 ∷ notified 1 17 ∷ []) [] (accepted 3 ∷ []) start start-Holds
      ((refl, omega arith), ((refl, omega arith), (omega arith, (tt, (tt, tt)))))
      (tt, (tt, (tt, (tt, (tt, tt)))))
