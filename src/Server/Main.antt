-- ===== src/Server/Main.antt =====
-- `main`, `init_db`, `initEvent` and `shutdown_db` of server/server.c, as the calls that they make.
-- What libevent and hiredis return is a parameter, and so are the events that come.
pub mod Shutdown
mod Examples
use chat_hub.Base.{
  ℕ, Bool, true, false, Option, none, List, [], ◌∷◌, ◌++◌, ℤ, pos, negsuc, if◌then◌else◌,
}
use chat_hub.Run.{Run, ok, fault, null_pointer, uninitialised}
use chat_hub.Exec.{Exec, Exit, value, pure, lift, at_error, check, ◌>>=◌, ◌>>◌}
use chat_hub.Process.{Process, running, exited}
use chat_hub.Text.{Bytes}
use chat_hub.Config.{port, db_ip, db_port}
use chat_hub.Hashtable.{HashNode, HashMap, hash_init, hash_destroy}
use chat_hub.Message.{Parson}
use chat_hub.Dao.Interface.{Dao}
use chat_hub.Dao.Connection.{Context, Connection, open_db, close_db}
use chat_hub.Server.{State}
use chat_hub.Libevent.{Status, dispatching}
use chat_hub.Server.Loop.{Event, dispatch_events}

-- Whether libevent makes the base, the listener and the signal event, what `event_add` returns, and
-- what `evconnlistener_free` does with a listener whose base has been freed before it.
pub record Made : Type 0 where
  pub base : Bool
  pub listener : Bool
  pub signal_event : Bool
  pub added : ℤ
  pub freed_late : Run (Unit {0})

-- the variable `listener`
pub data Pointer : Type 0 where
  unset null set : Pointer

-- what is called, `hash_destroy` with the nodes that it frees
pub data Call : Type 0 where
  base_new : Call
  listener_new_bind : ℕ → Call
  signal_new event_add : Call
  dispatched : Status → Call
  base_free listener_free database_closed : Call
  table_destroyed : List HashNode → Call

pub record World (S : Type 0) : Type 0 where
  pub state : State S
  pub database : Connection
  pub listener : Pointer
  pub calls : List Call

module _ {S : Type 0} where
  abbrev pub call : Call → Exec (World S) (Unit {0})
  call c w = ok (value tt, record w { calls = w.calls ++ c ∷ [] })

  abbrev pub set_listener : Bool → Exec (World S) (Unit {0})
  set_listener made w = ok (value tt, record w { listener = if made then set else null })

module _ {S A : Type 0} where
  abbrev pub put_state : World S → Run (Exit A × State S) → Run (Exit A × World S)
  put_state w (ok (x, st)) = ok (x, record w { state = st })
  put_state w (fault e) = fault e

  abbrev pub on_state : Exec (State S) A → Exec (World S) A
  on_state m w = put_state w (m w.state)

-- `signal_event && event_add(signal_event, NULL) >= 0`
abbrev pub not_negative : ℤ → Bool
not_negative (pos n) = true
not_negative (negsuc n) = false

module _ {S : Type 0} where
  unfoldable pub add_signal : Made → Exec (World S) (Unit {0})
  add_signal made =
      if made.signal_event
      then (do call event_add; check (not_negative made.added))
      else check false

  -- `evconnlistener_free(listener)`, which comes after `event_base_free` of the listener's base
  unfoldable pub free_listener : Made → Pointer → Exec (World S) (Unit {0})
  free_listener made unset = lift (fault uninitialised)
  free_listener made null = lift (fault null_pointer)
  free_listener made set = lift made.freed_late >> call listener_free

  abbrev pub listener_of : Exec (World S) Pointer
  listener_of w = ok (value w.listener, w)

  abbrev pub destroy_table : World S → Run (List HashNode) → Run (Exit (Unit {0}) × World S)
  destroy_table w (ok freed) =
      ok (value tt, record w { calls = w.calls ++ table_destroyed freed ∷ [] })
  destroy_table w (fault e) = fault e

  unfoldable pub shutdown_db : Exec (World S) (Unit {0})
  shutdown_db w =
      destroy_table
        (record w { database = close_db w.database; calls = w.calls ++ database_closed ∷ [] })
        (hash_destroy w.state.clients)

module _ (dao : Dao) (p : Parson) (bufferevent_getfd : ℕ → ℤ) where
  -- up to the label `error:`
  unfoldable pub run_loop : Made → List Event → Exec (World dao.Store) (Unit {0})
  run_loop made events = do
    call base_new
    check made.base
    call (listener_new_bind port)
    set_listener made.listener
    check made.listener
    call signal_new
    add_signal made
    status ← on_state (dispatch_events dao p bufferevent_getfd events dispatching)
    call (dispatched status)

  unfoldable pub init_event : Made → List Event → Exec (World dao.Store) (Unit {0})
  init_event made events = do
    at_error tt (run_loop made events)
    call base_free
    listener ← listener_of
    free_listener made listener
    shutdown_db

  abbrev pub start_world : dao.Store → Connection → HashMap → World dao.Store
  start_world s db clients = record {
    state = record { clients = clients; store = s; written = [] };
    database = db;
    listener = unset;
    calls = [];
  }

  abbrev pub ended : Run (Exit (Unit {0}) × World dao.Store) → Run (Process (World dao.Store))
  ended (ok (x, w)) = ok (running w)
  ended (fault e) = fault e

  -- `init_db` and `initEvent`; the store is what the database holds. There is no table yet where
  -- `open_db` ends the program.
  unfoldable pub main :
      (Bytes → ℕ → Option Context) → Made → List Event → dao.Store → Run (Process (World dao.Store))
  main connect made events s =
      elim (open_db connect db_ip db_port (record { context = none; allocated = 0 })) [
        | exited code db ↦ ok (exited code (start_world s db (hash_init 0)))
        | running db ↦ ended (init_event made events (start_world s db (hash_init 1024)))
      ]
