-- ===== src/Server/Clients.antt =====
-- Connections that come and go (`listener_cb` and `eventcb` of server/server.c), against a plain
-- function from descriptors to buffers.
use chat_hub.Base.{
  ℕ, suc, ◌<◌, ◌≡◌, ◌∙◌, refl, ap, true, false, List, [], ◌∷◌, pos, ◌==◌, if◌then◌else◌, All,
  Bool-cases, inl, inr,
}
use mathlib.Core.Path.{fun_ext}
use chat_hub.Run.{ok}
use chat_hub.Exec.{Exec, value, pure, ◌>>◌}
use chat_hub.Hashtable.{HashMap, hash_set, hash_delete}
use chat_hub.Hashtable.Direct.{IsDirect, view, hash_set-Updates, hash_delete-Updates}
use chat_hub.Hashtable.Refine.{Table, update}
use chat_hub.Dao.Interface.{Dao}
use chat_hub.Server.{State}
use chat_hub.Server.Input.{connect_client, disconnect_client, listener_cb, eventcb}

-- a new connection, and an event with its mask
pub data Event : Type 0 where
  connected : ℕ → Event
  event : ℕ → ℕ → Event

-- The specification: the buffer of each descriptor, 0 for none.
unfoldable pub table_after : (ℕ → ℕ) → Table → List Event → Table
table_after fd_of t [] = t
table_after fd_of t (connected bev ∷ es) = table_after fd_of (update t (fd_of bev) bev) es
table_after fd_of t (event bev mask ∷ es) =
    let same = table_after fd_of t es in
    let gone = table_after fd_of (update t (fd_of bev) 0) es in if mask == 0 then same else gone

-- a buffer that libevent made, with a descriptor that the table has room for
abbrev pub IsServed : (ℕ → ℕ) → ℕ → Event → Type 0
IsServed fd_of cap (connected bev) = ((bev == 0) ≡ false) × (suc (fd_of bev) < cap)
IsServed fd_of cap (event bev mask) = suc (fd_of bev) < cap

module _ (dao : Dao) (fd_of : ℕ → ℕ) where
  unfoldable pub serve : List Event → Exec (State dao.Store) (Unit {0})
  serve [] = pure tt
  serve (connected bev ∷ es) = listener_cb dao (λ b. pos (fd_of b)) bev >> serve es
  serve (event bev mask ∷ es) = eventcb dao (λ b. pos (fd_of b)) bev mask >> serve es

  -- the run ends with a direct table that holds `t`
  pub record Serves (es : List Event) (st : State dao.Store) (t : Table) : Type 0 where
    pub clients : HashMap
    pub run : serve es st ≡ ok (value tt, record st { clients = clients })
    pub valid : IsDirect clients
    pub same_cap : clients.cap ≡ st.clients.cap
    pub holds : (q : ℕ) → view clients q ≡ t q

  Serves-step :
      {e : Event} {es : List Event} {st : State dao.Store} {hm : HashMap} {t t' : Table}
      → serve (e ∷ es) st ≡ serve es (record st { clients = hm })
      → hm.cap ≡ st.clients.cap
      → Serves es (record st { clients = hm }) t
      → t ≡ t'
      → Serves (e ∷ es) st t'
  Serves-step {t = t} step cap rest same = record {
    clients = rest.clients;
    run = step ∙ rest.run;
    valid = rest.valid;
    same_cap = rest.same_cap ∙ cap;
    holds = λ q. rest.holds q ∙ ap (λ (f : Table). f q) same;
  }

  module _ (st : State dao.Store) (bev : ℕ) (es : List Event) {hm : HashMap} where
    connected_step :
        (bev == 0) ≡ false
        → hash_set st.clients (pos (fd_of bev)) bev ≡ ok hm
        → serve (connected bev ∷ es) st ≡ serve es (record st { clients = hm })
    unfolding serve listener_cb connect_client
    connected_step live e = rw (live, e)

    event_step :
        (mask : ℕ) {old : ℕ}
        → (mask == 0) ≡ false
        → hash_delete st.clients (pos (fd_of bev)) ≡ ok (hm, old)
        → serve (event bev mask ∷ es) st ≡ serve es (record st { clients = hm })
    unfolding serve eventcb disconnect_client
    event_step mask raised e = rw (raised, e)

  empty_event :
      (st : State dao.Store) (bev mask : ℕ) (es : List Event)
      → (mask == 0) ≡ true
      → serve (event bev mask ∷ es) st ≡ serve es (record st { clients = st.clients })
  unfolding serve eventcb
  empty_event st bev mask es none_raised = rw none_raised

  -- Whatever connections come and go, in any order, the server returns, and its table holds for each
  -- descriptor the buffer of its last connection, unless an event has come for it since. The
  -- descriptors are below `cap - 1`, and the buffers are not NULL.
  pub serve_holds :
      (es : List Event) (st : State dao.Store)
      → IsDirect st.clients
      → All (IsServed fd_of st.clients.cap) es
      → Serves es st (table_after fd_of (view st.clients) es)
  unfolding serve table_after
  serve_holds [] st v all = record {
    clients = st.clients;
    run = refl;
    valid = v;
    same_cap = refl;
    holds = λ q. refl;
  }
  serve_holds (connected bev ∷ es) st v ((live, small), all) =
      let (hm, e, u) = hash_set-Updates v (fd_of bev) small bev in
      Serves-step (connected_step st bev es live e) u.same_cap
        (serve_holds es (record st { clients = hm }) u.valid (rw u.same_cap all))
        (ap (λ t. table_after fd_of t es) (fun_ext u.reads))
  serve_holds (event bev mask ∷ es) st v (small, all) = elim (Bool-cases (mask == 0)) [
    | inl silent ↦
        Serves-step (empty_event st bev mask es silent) refl (serve_holds es st v all) (rw silent)
    | inr raised ↦
        let (hm, e, u) = hash_delete-Updates v (fd_of bev) small in
        Serves-step (event_step st bev es mask raised e) u.same_cap
          (serve_holds es (record st { clients = hm }) u.valid (rw u.same_cap all))
          (ap (λ t. table_after fd_of t es) (fun_ext u.reads) ∙ rw raised)
  ]
