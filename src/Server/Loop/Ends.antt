-- ===== src/Server/Loop/Ends.antt =====
-- What holds of the result of a step of server/server.c, where it returns.
use chat_hub.Run.{Run, ok, fault}
use chat_hub.Exec.{Exec, Exit, value, goto_error, continue}
use chat_hub.Hashtable.{HashMap}
use chat_hub.Server.{State}
use chat_hub.Server.Keeps.{Kept}

-- the result of a step, if it returns a value, satisfies `Q`
module _ {S A : Type 0} where
  abbrev pub Ends : (A → HashMap → Type 0) → Run (Exit A × State S) → Type 0
  Ends Q (ok (value a, st)) = Q a st.clients
  Ends Q (ok (goto_error, st)) = Unit
  Ends Q (fault e) = Unit

  pub Ends-Kept :
      (Q : A → HashMap → Type 0) (hm : HashMap) (m : Run (Exit A × State S))
      → Kept hm m
      → ((a : A) → Q a hm)
      → Ends Q m
  Ends-Kept Q hm (ok (value a, st)) kept q = rw kept (q a)
  Ends-Kept Q hm (ok (goto_error, st)) kept q = tt
  Ends-Kept Q hm (fault e) kept q = tt

module _ {S A B : Type 0} where
  pub Ends-continue :
      (Q : A → HashMap → Type 0) (R : B → HashMap → Type 0) (m : Run (Exit A × State S))
      (f : A → Exec (State S) B)
      → Ends Q m
      → ((a : A) (st : State S) → Q a st.clients → Ends R (f a st))
      → Ends R (continue m f)
  Ends-continue Q R (ok (value a, st)) f h k = k a st h
  Ends-continue Q R (ok (goto_error, st)) f h k = tt
  Ends-continue Q R (fault e) f h k = tt
