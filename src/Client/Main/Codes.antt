-- ===== src/Client/Main/Codes.antt =====
-- How `main` of client/client.c ends.
use chat_hub.Base.{◌≡◌, true, List, [], ◌∷◌, ◌++◌, pos, arith, to_int}
use chat_hub.Run.{Run, ok, >>=-eq-ok}
use chat_hub.Libevent.{Status, dispatching}
use chat_hub.Text.{Bytes, atoll}
use chat_hub.Message.{Parson}
use chat_hub.Client.{Client, new_client}
use chat_hub.Client.Main.{
  Event, Made, Call, base_new, socket_new, connect, stdin_added, signal_new, signal_added,
  dispatched, buffer_free, events_free, base_free, Outcome, returned, exited, dispatch_events,
  run_loop, add_signal, connect_server, main, exit_code, not_negative, to_uint16,
}

-- every outcome of `m` has the code 1
abbrev AreFailures : Run (List Call × Outcome) → Type 0
AreFailures m = (calls : List Call) (out : Outcome) → m ≡ ok (calls, out) → exit_code out ≡ pos 1

module _ (p : Parson) (made : Made) (events : List Event) where
  exited-AreFailures : (calls : List Call) → AreFailures (ok (calls, exited (pos 1)))
  exited-AreFailures calls c out e = ground arith

  run_loop-AreFailures : (calls : List Call) → AreFailures (run_loop p made events calls)
  unfolding run_loop
  run_loop-AreFailures calls c out e =
      let (r, looped, last) = >>=-eq-ok (dispatch_events p events new_client dispatching) _ e in
      ground arith

  add_signal-AreFailures : (calls : List Call) → AreFailures (add_signal p made events calls)
  unfolding add_signal
  add_signal-AreFailures calls c out e =
      ground (arith, run_loop-AreFailures (calls ++ signal_added ∷ []) c out)

  connect_server-AreFailures :
      (ip port : Bytes) (calls : List Call)
      → AreFailures (connect_server p made events ip port calls)
  unfolding connect_server
  connect_server-AreFailures ip port calls c out e =
      let calls' = calls ++ connect ip (to_uint16 (to_int (atoll port))) ∷ [] in
      ground (arith, add_signal-AreFailures (calls' ++ stdin_added ∷ signal_new ∷ []) c out)

  main-AreFailures : (argv : List Bytes) → AreFailures (main p made events argv)
  unfolding main
  main-AreFailures [] c out e = ground arith
  main-AreFailures (a ∷ []) c out e = ground arith
  main-AreFailures (a ∷ ip ∷ []) c out e = ground arith
  main-AreFailures (a ∷ ip ∷ port ∷ []) c out e =
      ground (arith, connect_server-AreFailures ip port (base_new ∷ socket_new ∷ []) c out)
  main-AreFailures (a ∷ ip ∷ port ∷ b ∷ argv) c out e = ground arith

  -- Where everything is made and the loop ends, `main` makes these calls, in this order: the buffer,
  -- the events and the base are freed after the loop.
  pub main_ends :
      (name ip port : Bytes)
      → made.base ≡ true
      → made.bev ≡ true
      → not_negative made.connected ≡ true
      → made.signal_event ≡ true
      → not_negative made.added ≡ true
      → {client : Client} {status : Status}
      → dispatch_events p events new_client dispatching ≡ ok (client, status)
      → main p made events (name ∷ ip ∷ port ∷ [])
        ≡ ok (
          base_new
              ∷ socket_new
              ∷ connect ip (to_uint16 (to_int (atoll port)))
              ∷ stdin_added
              ∷ signal_new
              ∷ signal_added
              ∷ dispatched status
              ∷ buffer_free
              ∷ events_free
              ∷ base_free
              ∷ [],
          returned (pos 1) client,
        )
  unfolding main connect_server add_signal run_loop
  main_ends name ip port based buffered connected signalled added looped =
      rw (based, buffered, connected, signalled, added, looped)

  -- Whatever the arguments, whatever libevent returns and whatever happens in the loop: where `main`
  -- ends, the shell sees the code 1, also after a run without an error.
  pub main_fails :
      (argv : List Bytes) {calls : List Call} {out : Outcome}
      → main p made events argv ≡ ok (calls, out)
      → exit_code out ≡ pos 1
  main_fails argv {calls} {out} e = main-AreFailures argv calls out e
