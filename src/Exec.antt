-- ===== src/Exec.antt =====
-- A function of server/dao.c over the state of the database. The `check` macro of lib/dbg.h leaves
-- the function's straight line for its label `error:`; a `Run` fault ends the program.
use chat_hub.Base.{Bool, true, false}
use chat_hub.Run.{Run, ok, fault}

pub data Exit (A : Type 0) : Type 0 where
  value : A → Exit A
  goto_error : Exit A

abbrev pub Exec : Type 0 → Type 0 → Type 0
Exec S A = S → Run (Exit A × S)

module _ {S A : Type 0} where
  abbrev pub pure : A → Exec S A
  pure a s = ok (value a, s)

  abbrev pub lift_with : Run A → S → Run (Exit A × S)
  lift_with (ok a) s = ok (value a, s)
  lift_with (fault e) s = fault e

  -- a step that may fault and does not touch the database
  abbrev pub lift : Run A → Exec S A
  lift m s = lift_with m s

  abbrev pub recover : A → Run (Exit A × S) → Run (Exit A × S)
  recover a (ok (value x, s)) = ok (value x, s)
  recover a (ok (goto_error, s)) = ok (value a, s)
  recover a (fault e) = fault e

  -- `error: return a;` behind a body
  abbrev pub at_error : A → Exec S A → Exec S A
  at_error a m s = recover a (m s)

module _ {S : Type 0} where
  -- `check(test, …)`
  abbrev pub check : Bool → Exec S (Unit {0})
  check true s = ok (value tt, s)
  check false s = ok (goto_error, s)

module _ {S A B : Type 0} where
  abbrev pub continue : Run (Exit A × S) → (A → Exec S B) → Run (Exit B × S)
  continue (ok (value a, s)) f = f a s
  continue (ok (goto_error, s)) f = ok (goto_error, s)
  continue (fault e) f = fault e

  infixl 5 ◌>>=◌
  abbrev pub ◌>>=◌ : Exec S A → (A → Exec S B) → Exec S B
  ◌>>=◌ m f s = continue (m s) f

module _ {S B : Type 0} where
  infixl 5 ◌>>◌
  abbrev pub ◌>>◌ : Exec S (Unit {0}) → Exec S B → Exec S B
  m >> k = m >>= λ _. k
