-- ===== src/Server/Loop/Table.antt =====
-- The table of clients over a run of the event loop (server/server.c), whatever the clients send.
use chat_hub.Base.{
  arith, ℕ, suc, ◌<◌, ◌≡◌, ◌∙◌, refl, ap, true, false, List, [], ◌∷◌, pos, ◌==◌, if◌then◌else◌, All,
  Bool-cases, inl, inr,
}
use chat_hub.Run.{ok}
use chat_hub.Exec.{value, continue}
use chat_hub.Libevent.{Status, dispatching, leaving, stopped}
use chat_hub.Hashtable.{HashMap, hash_set, hash_delete}
use chat_hub.Hashtable.Direct.{IsDirect, view, hash_set-Updates, hash_delete-Updates}
use chat_hub.Hashtable.Refine.{Table}
use chat_hub.Message.{Parson}
use chat_hub.Dao.Interface.{Dao}
use chat_hub.Server.{State}
use chat_hub.Server.Input.{connect_client, disconnect_client, listener_cb, eventcb}
use chat_hub.Server.Keeps.Handlers.{readcb-Keeps}
use chat_hub.Server.Clients.{table_after}
use chat_hub.Server.Clients
use chat_hub.Server.Loop.{
  Event, accepted, received, notified, listener_failed, interrupted, timer, callback,
  dispatch_events,
}
use chat_hub.Server.Loop.Connections.{next_status, connection_of, connections, IsHandled}
use chat_hub.Server.Loop.Ends.{Ends, Ends-Kept, Ends-continue}

pub record Holds (cap : ℕ) (t : Table) (hm : HashMap) : Type 0 where
  pub valid : IsDirect hm
  pub same_cap : hm.cap ≡ cap
  pub reads : (q : ℕ) → view hm q ≡ t q

module _ (dao : Dao) (p : Parson) (fd_of : ℕ → ℕ) (cap : ℕ) where
  -- what holds after the callback of an event, where the table held `t`
  abbrev After : Table → Event → Status → Status → HashMap → Type 0
  After t e status s hm =
      (s ≡ next_status e status) × Holds cap (table_after fd_of t (connection_of e [])) hm

  module _ (t : Table) (st : State dao.Store) (h : Holds cap t st.clients) (status : Status) where
    pub accepted_run :
        (bev : ℕ) {hm : HashMap}
        → (bev == 0) ≡ false
        → hash_set st.clients (pos (fd_of bev)) bev ≡ ok hm
        → callback dao p (λ b. pos (fd_of b)) (accepted bev) status st
          ≡ ok (value status, record st { clients = hm })
    unfolding callback listener_cb connect_client
    accepted_run bev live e = rw (live, e)

    pub notified_run :
        (bev events : ℕ) {hm : HashMap} {old : ℕ}
        → (events == 0) ≡ false
        → hash_delete st.clients (pos (fd_of bev)) ≡ ok (hm, old)
        → callback dao p (λ b. pos (fd_of b)) (notified bev events) status st
          ≡ ok (value status, record st { clients = hm })
    unfolding callback eventcb disconnect_client
    notified_run bev events raised e = rw (raised, e)

    pub silent_run :
        (bev events : ℕ)
        → (events == 0) ≡ true
        → callback dao p (λ b. pos (fd_of b)) (notified bev events) status st
          ≡ ok (value status, st)
    unfolding callback eventcb
    silent_run bev events silent = rw silent

    notified-After :
        (bev events : ℕ)
        → suc (fd_of bev) < cap
        → Ends
            (After t (notified bev events) status)
            (callback dao p (λ b. pos (fd_of b)) (notified bev events) status st)
    unfolding next_status connection_of table_after
    notified-After bev events small = elim (Bool-cases (events == 0)) [
      | inl silent ↦ rw (silent_run bev events silent, silent) (refl, h)
      | inr raised ↦
          let (hm, e, u) = hash_delete-Updates h.valid (fd_of bev) (rw h.same_cap small) in
          rw (notified_run bev events raised e, raised)
            (
              refl,
              record {
                valid = u.valid;
                same_cap = u.same_cap ∙ h.same_cap;
                reads = λ q. u.reads q ∙ ap (λ v. if q == fd_of bev then 0 else v) (h.reads q);
              },
            )
    ]

    pub callback-After :
        (e : Event)
        → IsHandled fd_of cap e
        → Ends (After t e status) (callback dao p (λ b. pos (fd_of b)) e status st)
    unfolding next_status connection_of table_after callback
    callback-After (accepted bev) (live, small) =
        let (hm, e, u) = hash_set-Updates h.valid (fd_of bev) (rw h.same_cap small) bev in
        rw (accepted_run bev live e) (
          refl,
          record {
            valid = u.valid;
            same_cap = u.same_cap ∙ h.same_cap;
            reads = λ q. u.reads q ∙ ap (λ v. if q == fd_of bev then bev else v) (h.reads q);
          },
        )
    callback-After (received o bev uninitialised input) handled =
        Ends-continue (λ a hm. hm ≡ st.clients)
          (After t (received o bev uninitialised input) status) _ _
          (Ends-Kept (λ a hm. hm ≡ st.clients) st.clients _
            ((readcb-Keeps dao p o (λ b. pos (fd_of b)) bev uninitialised input).at st) (λ a. refl))
          (λ a st' same. (refl, rw same h))
    callback-After (notified bev events) small = notified-After bev events small
    callback-After listener_failed handled = (refl, h)
    callback-After interrupted handled = (refl, h)
    callback-After timer handled = (refl, h)

  table_after-connection :
      (t : Table) (e : Event) (es : List Clients.Event)
      → table_after fd_of t (connection_of e es)
        ≡ table_after fd_of (table_after fd_of t (connection_of e [])) es
  unfolding table_after connection_of
  table_after-connection t (accepted bev) es = refl
  table_after-connection t (notified bev events) es = ground arith
  table_after-connection t _ es = refl

  -- one round, with the rounds behind it
  step :
      (e : Event) (es : List Event) (status : Status) (st : State dao.Store) (t : Table)
      → Holds cap t st.clients
      → IsHandled fd_of cap e
      → All (IsHandled fd_of cap) es
      → ((status : Status) (st : State dao.Store) (t : Table)
          → Holds cap t st.clients
          → All (IsHandled fd_of cap) es
          → Ends
              (λ s hm. Holds cap (table_after fd_of t (connections es status)) hm)
              (dispatch_events dao p (λ b. pos (fd_of b)) es status st))
      → Ends
          (λ s hm.
            Holds cap
              (table_after fd_of t (connection_of e (connections es (next_status e status))))
              hm)
          (continue
            (callback dao p (λ b. pos (fd_of b)) e status st)
            (dispatch_events dao p (λ b. pos (fd_of b)) es))
  step e es status st t h handled all rest =
      Ends-continue (After t e status)
        (λ s hm.
          Holds cap (table_after fd_of t (connection_of e (connections es (next_status e status))))
            hm)
        _ _ (callback-After t st h status e handled)
        λ s st' (same, h').
          rw (table_after-connection t e (connections es (next_status e status)), ← same)
            (rest s st' (table_after fd_of t (connection_of e [])) h' all)

  -- Whatever connections come and go, whatever bytes the clients send and however the handlers end,
  -- for every order of these events: where the loop returns, its table of clients is one in which no
  -- two descriptors collide, and it holds for each descriptor the buffer of its last connection,
  -- unless an event has come for it since; later events than the one that stops the loop do not
  -- count. The descriptors are below `cap - 1`, and the buffers are not NULL.
  pub dispatch_events-Ends :
      (es : List Event) (status : Status) (st : State dao.Store) (t : Table)
      → Holds cap t st.clients
      → All (IsHandled fd_of cap) es
      → Ends
          (λ s hm. Holds cap (table_after fd_of t (connections es status)) hm)
          (dispatch_events dao p (λ b. pos (fd_of b)) es status st)
  unfolding dispatch_events connections table_after
  dispatch_events-Ends [] status st t h all = h
  dispatch_events-Ends (e ∷ es) stopped st t h all = h
  dispatch_events-Ends (e ∷ es) dispatching st t h (handled, all) =
      step e es dispatching st t h handled all (dispatch_events-Ends es)
  dispatch_events-Ends (e ∷ es) leaving st t h (handled, all) =
      step e es leaving st t h handled all (dispatch_events-Ends es)
