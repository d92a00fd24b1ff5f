-- ===== src/Server/Main/Shutdown.antt =====
-- How `initEvent` (server/server.c) ends.
use chat_hub.Base.{
  append_assoc, ◌&&◌, Bool-cases, inl, inr, if◌then◌else◌, ℕ, ◌≡◌, true, false, List, [], ◌∷◌, ◌++◌,
  length, ℤ,
}
use chat_hub.Run.{ok, fault, null_pointer, uninitialised}
use chat_hub.Exec.{value}
use chat_hub.Config.{port}
use chat_hub.Hashtable.{HashNode}
use chat_hub.Hashtable.Destroy.{nodes, hash_destroy_lem}
use chat_hub.Hashtable.Probed.{IsProbed}
use chat_hub.Message.{Parson}
use chat_hub.Dao.Interface.{Dao}
use chat_hub.Dao.Connection.{close_db}
use chat_hub.Server.{State}
use chat_hub.Libevent.{Status, dispatching}
use chat_hub.Server.Loop.{Event, dispatch_events}
use chat_hub.Server.Main.{
  Made, World, unset, set, base_new, listener_new_bind, signal_new, event_add, dispatched,
  base_free, listener_free, database_closed, table_destroyed, not_negative, init_event, run_loop,
  add_signal, free_listener, shutdown_db,
}

module _ (dao : Dao) (p : Parson) (getfd : ℕ → ℤ) (made : Made) (events : List Event)
    (w : World dao.Store) where
  -- Where libevent makes the base, the listener and the signal event, and the loop returns with a
  -- table that meets its invariant, and where the listener can be freed after its base, `initEvent`
  -- returns; after the loop it frees the base and the
  -- listener, closes the database, and frees the nodes of the table, as many as its size says.
  pub init_event_ends :
      made.base ≡ true
      → made.listener ≡ true
      → made.signal_event ≡ true
      → not_negative made.added ≡ true
      → made.freed_late ≡ ok tt
      → {status : Status} {st : State dao.Store}
      → dispatch_events dao p getfd events dispatching w.state ≡ ok (value status, st)
      → IsProbed st.clients
      → (freed : List HashNode) × (length freed ≡ st.clients.size)
        × (init_event dao p getfd made events w
            ≡ ok (
              value tt,
              record {
                state = st;
                database = close_db w.database;
                listener = set;
                calls =
                    w.calls
                    ++ base_new
                      ∷ listener_new_bind port
                      ∷ signal_new
                      ∷ event_add
                      ∷ dispatched status
                      ∷ base_free
                      ∷ listener_free
                      ∷ database_closed
                      ∷ table_destroyed freed
                      ∷ [];
              },
            ))
  unfolding init_event run_loop add_signal free_listener shutdown_db
  init_event_ends based listening signalled added late looped v =
      let (freed, counted) = hash_destroy_lem v in
      (
        nodes _,
        counted,
        rw (based, listening, signalled, added, looped, late, freed) (simp append_assoc),
      )

  -- Where the signal event is made and not added, the loop is not entered, and the rest is freed
  -- and closed as after the loop, if the listener can be freed after its base.
  pub init_event_unregistered :
      made.base ≡ true
      → made.listener ≡ true
      → made.signal_event ≡ true
      → not_negative made.added ≡ false
      → made.freed_late ≡ ok tt
      → IsProbed w.state.clients
      → init_event dao p getfd made events w
        ≡ ok (
          value tt,
          record w {
            database = close_db w.database;
            listener = set;
            calls =
                w.calls
                ++ base_new
                  ∷ listener_new_bind port
                  ∷ signal_new
                  ∷ event_add
                  ∷ base_free
                  ∷ listener_free
                  ∷ database_closed
                  ∷ table_destroyed (nodes w.state.clients.slots)
                  ∷ [];
          },
        )
  unfolding init_event run_loop add_signal free_listener shutdown_db
  init_event_unregistered based listening signalled refused late v =
      rw (based, listening, signalled, refused, late, (hash_destroy_lem v).0) (simp append_assoc)

  -- Where libevent does not make the base, the label `error:` frees the listener, a variable that was
  -- not set; where it makes the base and not the listener, the label frees NULL.
  pub init_event_faults :
      w.listener ≡ unset
      → (made.base && made.listener) ≡ false
      → init_event dao p getfd made events w
        ≡ fault (if made.base then null_pointer else uninitialised)
  unfolding init_event run_loop free_listener
  init_event_faults fresh missing = elim (Bool-cases made.base) [
    | inl based ↦ let absent : made.listener ≡ false = rw based at missing in rw (based, absent)
    | inr none_made ↦ rw (none_made, fresh)
  ]
