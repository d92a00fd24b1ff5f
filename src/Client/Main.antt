-- ===== src/Client/Main.antt =====
-- `main` of client/client.c, as the calls that it makes, and its event loop. What libevent returns is
-- a parameter, and so are the events that come.
pub mod Codes
pub mod Sound
use chat_hub.Base.{
  ℕ, ◌-◌, ◌%◌, ◌^◌, Bool, true, false, List, [], ◌∷◌, ◌++◌, ℤ, pos, negsuc, length, ◌==◌,
  if◌then◌else◌, to_int,
}
use chat_hub.Run.{Run, ok, read_elem, ◌>>=◌}
use chat_hub.Libevent.{Status, dispatching, leaving, stopped, loopbreak, loopexit, delay_over}
use chat_hub.Text.{Bytes, atoll}
use chat_hub.Message.{Parson}
use chat_hub.Server.{Outside}
use chat_hub.Client.{Client, new_client, stdin_cb, read_cb, event_cb}

-- A line that is typed, with what is typed at the prompts behind it, input from the server, an event
-- of its connection, an interrupt, the end of the exit timer.
pub data Event : Type 0 where
  typed : Outside → Bytes → Bytes → Bytes → Event
  received : Bytes → Event
  notified : ℕ → Event
  interrupted timer : Event

-- with a delay of one second
abbrev pub signal_cb : Status → Status
signal_cb status = loopexit status

-- `event_base_loopbreak` in `event_cb`
abbrev pub status_of : Client → Status → Status
status_of client status = if client.stopped then loopbreak status else status

module _ (p : Parson) where
  unfoldable pub callback : Event → Client → Status → Run (Client × Status)
  callback (typed o line name password) client status =
      stdin_cb p o client line name password >>= λ c. ok (c, status)
  callback (received input) client status = read_cb p client input >>= λ c. ok (c, status)
  callback (notified events) client status =
      let c = event_cb client events in ok (c, status_of c status)
  callback interrupted client status = ok (client, signal_cb status)
  callback timer client status = ok (client, delay_over status)

  -- `event_base_dispatch` on the events that come, until the loop is stopped
  unfoldable pub dispatch_events : List Event → Client → Status → Run (Client × Status)
  dispatch_events [] client status = ok (client, status)
  dispatch_events (e ∷ es) client stopped = ok (client, stopped)
  dispatch_events (e ∷ es) client dispatching =
      callback e client dispatching >>= λ r. dispatch_events es r.0 r.1
  dispatch_events (e ∷ es) client leaving =
      callback e client leaving >>= λ r. dispatch_events es r.0 r.1

-- whether libevent makes the base, the buffer and the signal event, and what the calls return
pub record Made : Type 0 where
  pub base : Bool
  pub bev : Bool
  pub connected : ℤ
  pub signal_event : Bool
  pub added : ℤ

pub data Call : Type 0 where
  usage base_new socket_new : Call
  connect : Bytes → ℕ → Call
  stdin_added signal_new signal_added : Call
  dispatched : Status → Call
  buffer_free events_free base_free : Call

pub data Outcome : Type 0 where
  returned : ℤ → Client → Outcome
  exited : ℤ → Outcome

-- `uint16_t`
abbrev pub to_uint16 : ℤ → ℕ
to_uint16 (pos n) = n % 2 ^ 16
to_uint16 (negsuc n) = 2 ^ 16 - 1 - n % 2 ^ 16

abbrev pub not_negative : ℤ → Bool
not_negative (pos n) = true
not_negative (negsuc n) = false

module _ (p : Parson) (made : Made) (events : List Event) where
  -- from `event_base_dispatch` on
  unfoldable pub run_loop : List Call → Run (List Call × Outcome)
  run_loop calls = dispatch_events p events new_client dispatching >>= λ r.
      ok
        (calls ++ dispatched r.1 ∷ buffer_free ∷ events_free ∷ base_free ∷ [], returned (pos 1) r.0)

  unfoldable pub add_signal : List Call → Run (List Call × Outcome)
  add_signal calls =
      if made.signal_event
      then (if not_negative made.added
          then run_loop (calls ++ signal_added ∷ [])
          else ok (calls ++ signal_added ∷ [], exited (pos 1)))
      else ok (calls, exited (pos 1))

  unfoldable pub connect_server : Bytes → Bytes → List Call → Run (List Call × Outcome)
  connect_server ip port calls =
      let calls' = calls ++ connect ip (to_uint16 (to_int (atoll port))) ∷ [] in
      if not_negative made.connected
      then add_signal (calls' ++ stdin_added ∷ signal_new ∷ [])
      else ok (calls', exited (pos 1))

  -- The label `error:` calls `exit(1)`; the end of the function returns 1 too.
  unfoldable pub main : List Bytes → Run (List Call × Outcome)
  main argv =
      if length argv == 3
      then (if made.base
          then (if made.bev
              then (read_elem argv 1 >>= λ ip.
                  read_elem argv 2 >>= λ port. connect_server ip port (base_new ∷ socket_new ∷ []))
              else ok (base_new ∷ socket_new ∷ [], exited (pos 1)))
          else ok (base_new ∷ [], exited (pos 1)))
      else ok (usage ∷ [], exited (pos 1))

-- what the shell sees
abbrev pub exit_code : Outcome → ℤ
exit_code (returned status client) = status
exit_code (exited status) = status
