-- ===== src/Dao/Users/Refine/Runs.antt =====
-- Sequences of calls of the user functions return what the specification returns.
use chat_hub.Base.{
  ℕ, suc, ◌+◌, ◌<◌, ◌≤◌, ◌^◌, ◌≡◌, ◌⊎◌, refl, ap, Option, none, some, List, [], ◌∷◌, length,
  length-append, ℤ, pos, negsuc, inl, inr, arith,
}
use chat_hub.Run.{Run, ok, fault, null_pointer, ◌>>=◌ as ◌and_then◌}
use chat_hub.Exec.{Exec, Exit, value, goto_error, pure, continue}
use chat_hub.Text.{Bytes}
use chat_hub.Config.{new_user}
use chat_hub.Redis.{Redis}
use chat_hub.Redis.Documented.{Db, Documented}
use chat_hub.Redis.Returns.{Returns, Returns-cast}
use chat_hub.Dao.Keys.{users_key, next_user_id}
use chat_hub.Dao.Users.{register_user}
use chat_hub.Dao.Users.Accounts.{registered}
use chat_hub.Dao.Users.Accounts.Login.{login_user_unknown, login_user_known}
use chat_hub.Dao.Users.Accounts.Register.{register_user_fresh, register_user_taken}
use chat_hub.Dao.Users.Presence.{present, set_online_lem, logout_user_known, logout_user_unknown}
use chat_hub.Dao.Users.Refine.{
  Op, register, login, online, logout, named, call, run, Users, find_from, registered_as, logged_in,
  logged_out, step_users, run_users, result,
}
use chat_hub.Dao.Users.Refine.Stored.{Stored, Holds, account_of, Holds-registered, Holds-present}

one_more :
    {S : Type 0} (x : ℤ) (m : Run (Exit (List ℤ) × S)) (spec : Run (List ℤ))
    → result m ≡ (spec and_then λ xs. ok (value xs))
    → result (continue m (λ xs. pure (x ∷ xs)))
      ≡ ((spec and_then λ xs. ok (x ∷ xs)) and_then λ xs. ok (value xs))
one_more x (fault why) (fault other) h = h
one_more x (fault why) (ok xs) h = ground arith
one_more x (ok (value ys, s)) (fault other) h = ground arith
one_more x (ok (value ys, s)) (ok xs) h =
    let same : ys ≡ xs = ground arith in ap (λ l. ok (value (x ∷ l))) same
one_more x (ok (goto_error, s)) (fault other) h = ground arith
one_more x (ok (goto_error, s)) (ok xs) h = ground arith

module _ {r : Redis} (laws : Documented r) where
  -- `m` returns the result of the specification's step, and leaves a database that holds its users
  pub record Follows (us : Users) (m : Exec r.Store ℤ) (s : r.Store) (step : Users × ℤ)
      : Type 0 where
    pub db_after : Db
    pub returns : Returns laws m s step.1 db_after
    pub holds : Holds db_after step.0
    pub longer : length step.0 ≤ suc (length us)

  module _ (d : Db) (us : Users) (h : Holds d us) {s : r.Store} (ready : laws.Ready s)
      (e : laws.db s ≡ d) where
    pub register-Follows :
        (name pass : Bytes) (now : ℤ) (o : Option (ℕ × Bytes))
        → length us + 1 < 2 ^ 31
        → find_from 1 us name ≡ o
        → Follows us (register_user r (named name pass) now) s (registered_as us name pass o)
    register-Follows name pass now none room f =
        let fresh : d.hash users_key name ≡ none = rw f at (h.found name) in
        let number : d.counter next_user_id + 1 ≡ suc (length us) = omega (arith, h.counted) in
        record {
          db_after = registered d (named name pass) now;
          returns =
              Returns-cast laws
                (register_user_fresh laws d ready e (named name pass) now fresh
                  (omega (arith, h.counted)))
                (ap pos number) refl;
          holds = Holds-registered d us (named name pass) now h f;
          longer = omega (arith, length-append us ((name, pass) ∷ []));
        }
    register-Follows name pass now (some (id, p)) room f =
        let there : Stored d name id p = rw f at (h.found name) in
        record {
          db_after = d;
          returns = register_user_taken laws d ready e (named name pass) now there.indexed;
          holds = h;
          longer = omega arith;
        }

    pub login-Follows :
        (name pass : Bytes) (o : Option (ℕ × Bytes))
        → find_from 1 us name ≡ o
        → Follows us (call r (login name pass)) s (us, logged_in pass o)
    login-Follows name pass none f =
        let absent : d.hash users_key name ≡ none = rw f at (h.found name) in
        record {
          db_after = d;
          returns = login_user_unknown laws d ready e (named name pass) absent;
          holds = h;
          longer = omega arith;
        }
    login-Follows name pass (some (id, p)) f =
        let there : Stored d name id p = rw f at (h.found name) in
        record {
          db_after = d;
          returns =
              login_user_known laws d (named name pass) there.indexed (account_of d name id p there)
                refl ready e;
          holds = h;
          longer = omega arith;
        }

    pub logout-Follows :
        (name : Bytes) (now : ℤ) (o : Option (ℕ × Bytes))
        → find_from 1 us name ≡ o
        → ((logged_out o ≡ fault null_pointer) × (call r (logout name now) s ≡ fault null_pointer))
          ⊎ ((id : ℤ) × (logged_out o ≡ ok id) × Follows us (call r (logout name now)) s (us, id))
    logout-Follows name now none f =
        let absent : d.hash users_key name ≡ none = rw f at (h.found name) in
        inl (refl, logout_user_unknown laws d ready e (named name []) now absent refl)
    logout-Follows name now (some (id, p)) f =
        let there : Stored d name id p = rw f at (h.found name) in
        inr (
          pos id,
          refl,
          record {
            db_after = present d (pos id) (pos 0) (negsuc 0) now;
            returns =
                logout_user_known laws d ready e (named name []) now there.indexed
                  (account_of d name id p there) refl;
            holds = Holds-present d (pos id) (pos 0) (negsuc 0) now h;
            longer = omega arith;
          },
        )

    -- every call: it reads through NULL where the specification says so, and follows it otherwise
    call-Follows :
        (op : Op)
        → length us + 1 < 2 ^ 31
        → ((step_users us op ≡ fault null_pointer) × (call r op s ≡ fault null_pointer))
          ⊎ ((step : Users × ℤ) × (step_users us op ≡ ok step) × Follows us (call r op) s step)
    call-Follows (register name pass now) room =
        inr (_, refl, register-Follows name pass now (find_from 1 us name) room refl)
    call-Follows (login name pass) room =
        inr (_, refl, login-Follows name pass (find_from 1 us name) refl)
    call-Follows (online id fd now) room = inr (
      _,
      refl,
      record {
        db_after = present d id (pos 1) fd now;
        returns = set_online_lem laws d ready e (record new_user { user_id = id }) now fd;
        holds = Holds-present d id (pos 1) fd now h;
        longer = omega arith;
      },
    )
    call-Follows (logout name now) room =
        elim (logout-Follows name now (find_from 1 us name) refl) [
          | inl (none_there, faults) ↦ inl (rw none_there, faults)
          | inr (id, out, follows) ↦ inr ((us, id), rw out, follows)
        ]

  run_refines :
      (ops : List Op) (d : Db) (us : Users)
      → Holds d us
      → {s : r.Store} → laws.Ready s
      → laws.db s ≡ d
      → length us + length ops < 2 ^ 31
      → result (run r ops s) ≡ (run_users us ops and_then λ xs. ok (value xs))
  unfolding run_users
  run_refines [] d us h ready e room = refl
  run_refines (op ∷ ops) d us h {s} ready e room =
      elim (call-Follows d us h ready e op (omega arith)) [
        | inl (out, faults) ↦ rw (out, faults)
        | inr (step, out, follows) ↦
            let after = follows.returns in
            let rest =
              run_refines ops follows.db_after step.0 follows.holds after.ready_after after.contents
                (omega (arith, follows.longer)) in
            rw (out, after.run)
              (one_more step.1 (run r ops after.after) (run_users step.0 ops) rest)
      ]

  -- From a database without users on, every sequence of less than 2 ^ 31 calls of `register_user`,
  -- `login_user`, `set_online` and `logout_user` returns what the list of names and passwords returns: a new
  -- name has the next place in the list as its id, a login has the id for the right password, -1
  -- for another and -3 without the name, and a logout under a name that is not in the list is a read
  -- through NULL, which ends the run.
  pub run_from_empty :
      (ops : List Op) {s : r.Store}
      → laws.Ready s
      → ((name : Bytes) → (laws.db s).hash users_key name ≡ none)
      → (laws.db s).counter next_user_id ≡ 0
      → length ops < 2 ^ 31
      → result (run r ops s) ≡ (run_users [] ops and_then λ xs. ok (value xs))
  unfolding find_from
  run_from_empty ops {s} ready nobody none_issued room =
      run_refines ops (laws.db s) [] (record { counted = none_issued; found = nobody }) ready refl
        (omega arith)
