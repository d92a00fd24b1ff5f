-- ===== src/Server/Dispatch.antt =====
-- `handleAllMessage` and `handleChat` (server/server.c).
use chat_hub.Base.{
  ◌∙◌, ℕ, ◌≤◌, ◌≡◌, ℤ, pos, negsuc, ltb, if◌then◌else◌, arith, Bool-cases, inl, inr,
  get_elem?-eq-some, get_elem?-eq-none,
}
use chat_hub.Run.{read_elem, ok, fault, out_of_bounds}
use chat_hub.Exec.{continue, lift, value}
use chat_hub.Config.{Message, message_types}
use chat_hub.Message.{Parson}
use chat_hub.Dao.Interface.{Dao}
use chat_hub.Server.{State, Outside, handle_all_message, dispatch, type_index}

module _ (dao : Dao) (p : Parson) (o : Outside) (getfd : ℕ → ℤ) (from : ℕ) (message : Message)
    (st : State dao.Store) where
  dispatch_other :
      (n : ℕ)
      → message.type ≡ pos n
      → 5 ≤ n
      → dispatch dao p o getfd from message st ≡ ok (value tt, st)
  unfolding dispatch
  dispatch_other n e big = rw e (ground arith)

  pub all_run :
      {i : ℕ}
      → type_index message.type ≡ ok i
      → handle_all_message dao p o getfd from message st
        ≡ continue (lift (read_elem message_types i) st) (λ _. dispatch dao p o getfd from message)
  unfolding handle_all_message
  all_run e = rw e

  pub type_index_pos : (n : ℕ) → message.type ≡ pos n → type_index message.type ≡ ok n
  unfolding type_index
  type_index_pos n e = rw e

  -- A message with a type from 5 to 14 does nothing; a greater type makes the server read past
  -- `message_types`.
  pub handle_all_message_other :
      (n : ℕ)
      → message.type ≡ pos n
      → 5 ≤ n
      → handle_all_message dao p o getfd from message st
        ≡ (if ltb n 15 then ok (value tt, st) else fault out_of_bounds)
  handle_all_message_other n e big = all_run (type_index_pos n e) ∙ elim (Bool-cases (ltb n 15)) [
    | inl small ↦
        let (s, at_n) = get_elem?-eq-some message_types n (ground arith) in
        rw (at_n, dispatch_other n e big, small)
    | inr great ↦ rw (get_elem?-eq-none message_types n (ground arith), great)
  ]

  -- A message with a negative type makes the server read before `message_types`.
  pub handle_all_message_negative :
      (n : ℕ)
      → message.type ≡ negsuc n
      → handle_all_message dao p o getfd from message st ≡ fault out_of_bounds
  unfolding handle_all_message type_index
  handle_all_message_negative n e = rw e
