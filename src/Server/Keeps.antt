-- ===== src/Server/Keeps.antt =====
-- No handler touches the table of clients: the rules for each way to build a step.
pub mod Handlers
use chat_hub.Base.{ℕ, ◌≡◌, ◌∙◌, refl, Bool, true, false, if◌then◌else◌}
use chat_hub.Run.{Run, ok, fault}
use chat_hub.Exec.{Exec, Exit, value, goto_error, pure, lift, lift_with, ◌>>=◌, ◌>>◌, continue}
use chat_hub.Text.{Bytes}
use chat_hub.Hashtable.{HashMap}
use chat_hub.Server.{State, on_db, with_store, on_clients, write}

module _ {S A : Type 0} where
  -- the result of a step, if it returns, has the table `hm`
  abbrev pub Kept : HashMap → Run (Exit A × State S) → Type 0
  Kept hm (ok (x, st)) = st.clients ≡ hm
  Kept hm (fault e) = Unit

  pub record Keeps (m : Exec (State S) A) : Type 0 where
    pub at : (st : State S) → Kept st.clients (m st)

  pub Keeps-pure : (a : A) → Keeps (pure a)
  Keeps-pure a = record { at = λ st. refl }

  lift-Kept : (m : Run A) (st : State S) → Kept st.clients (lift_with m st)
  lift-Kept (ok a) st = refl
  lift-Kept (fault e) st = tt

  pub Keeps-lift : (m : Run A) → Keeps (lift m)
  Keeps-lift m = record { at = lift-Kept m }

  store-Kept : (st : State S) (m : Run (Exit A × S)) → Kept st.clients (with_store st m)
  store-Kept st (ok (x, s)) = refl
  store-Kept st (fault e) = tt

  pub Keeps-on_db : (m : Exec S A) → Keeps (on_db m)
  Keeps-on_db m = record { at = λ st. store-Kept st (m st.store) }

  pub Keeps-on_clients : (f : HashMap → Run A) → Keeps (on_clients f)
  Keeps-on_clients f = record { at = λ st. lift-Kept (f st.clients) st }

  pub Keeps-if :
      (b : Bool) {m n : Exec (State S) A} → Keeps m → Keeps n → Keeps (if b then m else n)
  Keeps-if true km kn = km
  Keeps-if false km kn = kn

module _ {S : Type 0} where
  pub Keeps-write : (bev : ℕ) (bytes : Bytes) → Keeps {S = S} (write bev bytes)
  Keeps-write bev bytes = record { at = λ st. refl }

module _ {S B : Type 0} where
  Kept-after :
      (hm : HashMap) (r : Run (Exit B × State S))
      → (st : State S) → st.clients ≡ hm
      → Kept st.clients r
      → Kept hm r
  Kept-after hm (ok (x, st')) st e h = h ∙ e
  Kept-after hm (fault why) st e h = tt

module _ {S A B : Type 0} where
  Kept-continue :
      (hm : HashMap) (r : Run (Exit A × State S)) (f : A → Exec (State S) B)
      → Kept hm r
      → ((a : A) → Keeps (f a))
      → Kept hm (continue r f)
  Kept-continue hm (ok (value a, st)) f h kf = Kept-after hm (f a st) st h ((kf a).at st)
  Kept-continue hm (ok (goto_error, st)) f h kf = h
  Kept-continue hm (fault e) f h kf = tt

  pub Keeps-bind :
      {m : Exec (State S) A} {f : A → Exec (State S) B}
      → Keeps m
      → ((a : A) → Keeps (f a))
      → Keeps (m >>= f)
  Keeps-bind {m} {f} km kf = record { at = λ st. Kept-continue st.clients (m st) f (km.at st) kf }

pub ruleset keeps_rules =
    (Keeps-pure, Keeps-lift, Keeps-on_db, Keeps-on_clients, Keeps-if, Keeps-write, Keeps-bind)
