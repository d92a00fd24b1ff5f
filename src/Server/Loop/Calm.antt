-- ===== src/Server/Loop/Calm.antt =====
-- The event loop of server/server.c while no client sends anything.
use chat_hub.Base.{
  suc, ◌<◌, ◌==◌, Bool-cases, inl, inr, ℕ, ◌≡◌, ◌∙◌, refl, ap, List, [], ◌∷◌, pos, All,
}
use chat_hub.Run.{Run, ok}
use chat_hub.Exec.{Exec, Exit, value, continue}
use chat_hub.Libevent.{Status, dispatching, leaving, stopped}
use chat_hub.Message.{Parson}
use chat_hub.Dao.Interface.{Dao}
use chat_hub.Server.{State}
use chat_hub.Server.Loop.{
  Event, accepted, received, notified, listener_failed, interrupted, timer, callback,
  dispatch_events,
}
use chat_hub.Server.Loop.Connections.{next_status, IsHandled}
use chat_hub.Server.Loop.Table.{Holds, accepted_run, notified_run, silent_run}
use chat_hub.Hashtable.{HashMap}
use chat_hub.Hashtable.Refine.{Table}
use chat_hub.Hashtable.Direct.{view, hash_set-Updates, hash_delete-Updates}

-- no client sends anything
abbrev pub IsQuiet : Event → Type 0
IsQuiet (received o bev uninitialised input) = ⊥
IsQuiet _ = Unit

-- the loop after the events that come
unfoldable pub status_after : List Event → Status → Status
status_after [] status = status
status_after (e ∷ es) stopped = stopped
status_after (e ∷ es) dispatching = status_after es (next_status e dispatching)
status_after (e ∷ es) leaving = status_after es (next_status e leaving)

module _ (dao : Dao) (p : Parson) (fd_of : ℕ → ℕ) where
  -- the run returns with the loop in `status`; the database and the connections have been given
  -- nothing, and the table is sound
  pub record Calm (m : Run (Exit Status × State dao.Store)) (status : Status) (cap : ℕ)
      (st : State dao.Store) : Type 0 where
    pub clients : HashMap
    pub run : m ≡ ok (value status, record st { clients = clients })
    pub table : Table
    pub holds : Holds cap table clients

  notified-Calm :
      (cap bev events : ℕ) (status : Status) (st : State dao.Store) (t : Table)
      → Holds cap t st.clients
      → suc (fd_of bev) < cap
      → Calm (callback dao p (λ b. pos (fd_of b)) (notified bev events) status st) status cap st
  notified-Calm cap bev events status st t h small = elim (Bool-cases (events == 0)) [
    | inl silent ↦ record {
      clients = st.clients;
      run = silent_run dao p fd_of cap t st h status bev events silent;
      table = t;
      holds = h;
    }
    | inr raised ↦
        let (hm, e, u) = hash_delete-Updates h.valid (fd_of bev) (rw h.same_cap small) in
        let run = notified_run dao p fd_of cap t st h status bev events raised e in
        record {
          clients = hm;
          run = run;
          table = view hm;
          holds = record { valid = u.valid; same_cap = u.same_cap ∙ h.same_cap; reads = λ q. refl };
        }
  ]

  callback-Calm :
      (cap : ℕ) (e : Event) (status : Status) (st : State dao.Store) (t : Table)
      → Holds cap t st.clients
      → IsHandled fd_of cap e
      → IsQuiet e
      → Calm (callback dao p (λ b. pos (fd_of b)) e status st) (next_status e status) cap st
  unfolding next_status callback
  callback-Calm cap (accepted bev) status st t h (live, small) quiet =
      let (hm, e, u) = hash_set-Updates h.valid (fd_of bev) (rw h.same_cap small) bev in
      record {
        clients = hm;
        run = accepted_run dao p fd_of cap t st h status bev live e;
        table = view hm;
        holds = record { valid = u.valid; same_cap = u.same_cap ∙ h.same_cap; reads = λ q. refl };
      }
  callback-Calm cap (received o bev uninitialised input) status st t h handled quiet = absurd quiet
  callback-Calm cap (notified bev events) status st t h small quiet =
      notified-Calm cap bev events status st t h small
  callback-Calm cap listener_failed status st t h handled quiet = record {
    clients = st.clients;
    run = refl;
    table = t;
    holds = h;
  }
  callback-Calm cap interrupted status st t h handled quiet = record {
    clients = st.clients;
    run = refl;
    table = t;
    holds = h;
  }
  callback-Calm cap timer status st t h handled quiet = record {
    clients = st.clients;
    run = refl;
    table = t;
    holds = h;
  }

  continue-Calm :
      {m : Run (Exit Status × State dao.Store)} (f : Status → Exec (State dao.Store) Status)
      {status last : Status} {cap : ℕ} {st : State dao.Store} (first : Calm m status cap st)
      → Calm
          (f status (record st { clients = first.clients }))
          last
          cap
          (record st { clients = first.clients })
      → Calm (continue m f) last cap st
  continue-Calm f first rest = record {
    clients = rest.clients;
    run = ap (λ m. continue m f) first.run ∙ rest.run;
    table = rest.table;
    holds = rest.holds;
  }

  step-Calm :
      (cap : ℕ) (e : Event) (es : List Event) (status last : Status) (st : State dao.Store)
      (t : Table)
      → Holds cap t st.clients
      → IsHandled fd_of cap e
      → IsQuiet e
      → ((st : State dao.Store) (t : Table)
          → Holds cap t st.clients
          → Calm
              (dispatch_events dao p (λ b. pos (fd_of b)) es (next_status e status) st)
              last
              cap
              st)
      → Calm
          (continue
            (callback dao p (λ b. pos (fd_of b)) e status st)
            (dispatch_events dao p (λ b. pos (fd_of b)) es))
          last
          cap
          st
  step-Calm cap e es status last st t h now calm rest =
      let first = callback-Calm cap e status st t h now calm in
      continue-Calm (dispatch_events dao p (λ b. pos (fd_of b)) es) first
        (rest (record st { clients = first.clients }) first.table first.holds)

  pub dispatch_events-Calm :
      (cap : ℕ) (es : List Event) (status : Status)
      → All (IsHandled fd_of cap) es
      → All IsQuiet es
      → (st : State dao.Store) (t : Table) → Holds cap t st.clients
      → Calm
          (dispatch_events dao p (λ b. pos (fd_of b)) es status st)
          (status_after es status)
          cap
          st
  unfolding dispatch_events status_after
  dispatch_events-Calm cap [] status handled quiet st t h = record {
    clients = st.clients;
    run = refl;
    table = t;
    holds = h;
  }
  dispatch_events-Calm cap (e ∷ es) stopped handled quiet st t h = record {
    clients = st.clients;
    run = refl;
    table = t;
    holds = h;
  }
  dispatch_events-Calm cap (e ∷ es) dispatching (now, handled) (calm, quiet) st t h =
      step-Calm cap e es dispatching _ st t h now calm
        (dispatch_events-Calm cap es (next_status e dispatching) handled quiet)
  dispatch_events-Calm cap (e ∷ es) leaving (now, handled) (calm, quiet) st t h =
      step-Calm cap e es leaving _ st t h now calm
        (dispatch_events-Calm cap es (next_status e leaving) handled quiet)
