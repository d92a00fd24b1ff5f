-- ===== src/Server/Loop/Stops.antt =====
-- The event loop of server/server.c after an interrupt.
use chat_hub.Base.{ℕ, ◌≡◌, ◌∙◌, refl, ap, sym, List, [], ◌∷◌, ◌++◌, pos, All}
use chat_hub.Run.{Run, ok, fault}
use chat_hub.Exec.{Exec, Exit, value, goto_error, continue}
use chat_hub.Libevent.{Status, dispatching, leaving, stopped}
use chat_hub.Message.{Parson}
use chat_hub.Dao.Interface.{Dao}
use chat_hub.Server.{State}
use chat_hub.Server.Loop.{
  Event, accepted, received, notified, listener_failed, interrupted, timer, callback,
  dispatch_events,
}
use chat_hub.Server.Loop.Connections.{next_status, IsHandled}
use chat_hub.Server.Loop.Table.{Holds}
use chat_hub.Hashtable.{HashMap}
use chat_hub.Hashtable.Refine.{Table}
use chat_hub.Hashtable.Direct.{IsDirect}
use chat_hub.Server.Loop.Calm.{IsQuiet, status_after, dispatch_events-Calm}

status_after-stopped : (es : List Event) → status_after es stopped ≡ stopped
unfolding status_after
status_after-stopped [] = refl
status_after-stopped (e ∷ es) = refl

leaving_stops : (es : List Event) → status_after (es ++ timer ∷ []) leaving ≡ stopped
unfolding status_after next_status
leaving_stops [] = refl
leaving_stops (accepted bev ∷ es) = leaving_stops es
leaving_stops (received o bev uninitialised input ∷ es) = leaving_stops es
leaving_stops (notified bev events ∷ es) = leaving_stops es
leaving_stops (listener_failed ∷ es) = status_after-stopped (es ++ timer ∷ [])
leaving_stops (interrupted ∷ es) = leaving_stops es
leaving_stops (timer ∷ es) = status_after-stopped (es ++ timer ∷ [])

interrupted_stops :
    (before between : List Event) (status : Status)
    → status_after (before ++ interrupted ∷ (between ++ timer ∷ [])) status ≡ stopped
unfolding status_after next_status
interrupted_stops [] between stopped = refl
interrupted_stops [] between dispatching = leaving_stops between
interrupted_stops [] between leaving = leaving_stops between
interrupted_stops (e ∷ before) between stopped = refl
interrupted_stops (e ∷ before) between dispatching =
    interrupted_stops before between (next_status e dispatching)
interrupted_stops (e ∷ before) between leaving =
    interrupted_stops before between (next_status e leaving)

module _ {S A B C : Type 0} where
  continue_assoc :
      (m : Run (Exit A × S)) (f : A → Exec S B) (g : B → Exec S C) (h : A → Exec S C)
      → ((a : A) (s : S) → h a s ≡ continue (f a s) g)
      → continue m h ≡ continue (continue m f) g
  continue_assoc (ok (value a, s)) f g h same = same a s
  continue_assoc (ok (goto_error, s)) f g h same = refl
  continue_assoc (fault e) f g h same = refl

module _ (dao : Dao) (p : Parson) (fd_of : ℕ → ℕ) where
  stopped_stays :
      (es : List Event) (st : State dao.Store)
      → dispatch_events dao p (λ b. pos (fd_of b)) es stopped st ≡ ok (value stopped, st)
  unfolding dispatch_events
  stopped_stays [] st = refl
  stopped_stays (e ∷ es) st = refl

  dispatch_events-append :
      (es fs : List Event) (status : Status) (st : State dao.Store)
      → dispatch_events dao p (λ b. pos (fd_of b)) (es ++ fs) status st
        ≡ continue
            (dispatch_events dao p (λ b. pos (fd_of b)) es status st)
            (dispatch_events dao p (λ b. pos (fd_of b)) fs)
  unfolding dispatch_events
  dispatch_events-append [] fs status st = refl
  dispatch_events-append (e ∷ es) fs stopped st = sym (stopped_stays fs st)
  dispatch_events-append (e ∷ es) fs dispatching st =
      continue_assoc (callback dao p (λ b. pos (fd_of b)) e dispatching st) _ _ _
        (dispatch_events-append es fs)
  dispatch_events-append (e ∷ es) fs leaving st =
      continue_assoc (callback dao p (λ b. pos (fd_of b)) e leaving st) _ _ _
        (dispatch_events-append es fs)

  -- Connections that come and go, then an interrupt, more of them, and the end of the exit timer, while no
  -- client sends anything: the loop stops, whatever comes after; the database is what it was, no
  -- connection has been given anything, and no two descriptors of the table collide. The descriptors are
  -- below `cap - 1`, and the buffers are not NULL.
  pub dispatch_events_stops :
      {cap : ℕ} {t : Table} (before between after : List Event) (st : State dao.Store)
      → Holds cap t st.clients
      → All (IsHandled fd_of cap) (before ++ interrupted ∷ (between ++ timer ∷ []))
      → All IsQuiet (before ++ interrupted ∷ (between ++ timer ∷ []))
      → (hm : HashMap) × (dispatch_events dao p
            (λ b. pos (fd_of b))
            ((before ++ interrupted ∷ (between ++ timer ∷ [])) ++ after)
            dispatching
            st
          ≡ ok (value stopped, record st { clients = hm }))
        × IsDirect hm
  dispatch_events_stops {cap} {t} before between after st h handled quiet =
      let events = before ++ interrupted ∷ (between ++ timer ∷ []) in
      let run = dispatch_events-Calm dao p fd_of cap events dispatching handled quiet st t h in
      let ends =
        run.run
        ∙ ap (λ s. ok (value s, record st { clients = run.clients }))
            (interrupted_stops before between dispatching) in
      (
        run.clients,
        dispatch_events-append events after dispatching st
            ∙ ap (λ m. continue m (dispatch_events dao p (λ b. pos (fd_of b)) after)) ends
            ∙ stopped_stays after (record st { clients = run.clients }),
        run.holds.valid,
      )
