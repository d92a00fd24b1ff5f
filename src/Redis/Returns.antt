-- ===== src/Redis/Returns.antt =====
-- A function of dao.c that returns: `Returns m s a d` says that `m`, started at `s`, returns `a` on a
-- server that is ready and holds `d`; with a rule for each way to build a function.
use chat_hub.Base.{
  none, true, false, Bool, pos, to_int, if◌then◌else◌, Option, ap, ◌∙◌, ◌≡◌, refl, Bool, true, some,
}
use chat_hub.Run.{Run, ok}
use chat_hub.Exec.{Exec, value, pure, lift, at_error, check, ◌>>=◌}
use chat_hub.Text.{Bytes}
use chat_hub.Redis.{reply_integer, Redis, Command, Reply, error, checked, command}
use chat_hub.Redis.Documented.{bit, bulk, Db, Documented, Answers}

-- a reply that is no error
abbrev pub IsPlain : Reply → Type 0
IsPlain (error m) = ⊥
IsPlain _ = Unit

pub bit-IsPlain : (b : Bool) → IsPlain (bit b)
bit-IsPlain true = tt
bit-IsPlain false = tt

pub bulk-IsPlain : (o : Option Bytes) → IsPlain (bulk o)
bulk-IsPlain none = tt
bulk-IsPlain (some v) = tt

-- a reply of 0 or 1, as an `int`
pub bit_int : (b : Bool) → to_int (reply_integer (bit b)) ≡ (if b then pos 1 else pos 0)
bit_int true = refl
bit_int false = refl

module _ {r : Redis} (laws : Documented r) where
  pub record Returns {A : Type 0} (m : Exec r.Store A) (s : r.Store) (a : A) (d : Db) : Type 0 where
    pub after : r.Store
    pub run : m s ≡ ok (value a, after)
    pub ready_after : laws.Ready after
    pub contents : laws.db after ≡ d

  pub Returns-pure :
      {A : Type 0} (a : A) (s : r.Store) {d : Db}
      → laws.Ready s
      → laws.db s ≡ d
      → Returns (pure a) s a d
  Returns-pure a s ready e = record { after = s; run = refl; ready_after = ready; contents = e }

  pub Returns-if :
      {A : Type 0} (b : Bool) (x y : A) (s : r.Store) {d : Db}
      → laws.Ready s
      → laws.db s ≡ d
      → Returns (if b then pure x else pure y) s (if b then x else y) d
  Returns-if true x y s ready e = Returns-pure x s ready e
  Returns-if false x y s ready e = Returns-pure y s ready e

  pub Returns-if_true :
      {A : Type 0} (b : Bool) (m n : Exec r.Store A) {s : r.Store} {a : A} {d : Db}
      → b ≡ true
      → Returns m s a d
      → Returns (if b then m else n) s a d
  Returns-if_true b m n p h = rw p h

  pub Returns-lift :
      {A : Type 0} (m : Run A) (a : A) (s : r.Store) {d : Db}
      → m ≡ ok a
      → laws.Ready s
      → laws.db s ≡ d
      → Returns (lift m) s a d
  Returns-lift m a s p ready e = record { after = s; run = rw p; ready_after = ready; contents = e }

  pub Returns-check :
      (b : Bool) (s : r.Store) {d : Db}
      → b ≡ true
      → laws.Ready s
      → laws.db s ≡ d
      → Returns (check b) s tt d
  Returns-check b s p ready e = record { after = s; run = rw p; ready_after = ready; contents = e }

  pub Returns-bind :
      {A B : Type 0} {m : Exec r.Store A} (f : A → Exec r.Store B) {s : r.Store} {a : A} {b : B}
      {d d' : Db}
      → Returns m s a d
      → ((s' : r.Store) → laws.Ready s' → laws.db s' ≡ d → Returns (f a) s' b d')
      → Returns (m >>= f) s b d'
  Returns-bind f h k =
      let next = k h.after h.ready_after h.contents in
      record {
        after = next.after;
        run = rw h.run next.run;
        ready_after = next.ready_after;
        contents = next.contents;
      }

  -- where the rest is known at the state that the first command leaves
  pub Returns-then :
      {A B : Type 0} {m : Exec r.Store A} (f : A → Exec r.Store B) {s : r.Store} {a : A} {b : B}
      {d d' : Db} (h : Returns m s a d)
      → Returns (f a) h.after b d'
      → Returns (m >>= f) s b d'
  Returns-then f h next = record {
    after = next.after;
    run = rw h.run next.run;
    ready_after = next.ready_after;
    contents = next.contents;
  }

  pub Returns-cast :
      {A : Type 0} {m : Exec r.Store A} {s : r.Store} {a a' : A} {d d' : Db}
      → Returns m s a d
      → a ≡ a'
      → d ≡ d'
      → Returns m s a' d'
  Returns-cast h p e = record {
    after = h.after;
    run = h.run ∙ ap (λ x. ok (value x, h.after)) p;
    ready_after = h.ready_after;
    contents = h.contents ∙ e;
  }

  pub Returns-at_error :
      {A : Type 0} (e : A) {m : Exec r.Store A} {s : r.Store} {a : A} {d : Db}
      → Returns m s a d
      → Returns (at_error e m) s a d
  Returns-at_error e h = record {
    after = h.after;
    run = rw h.run;
    ready_after = h.ready_after;
    contents = h.contents;
  }

  checked_plain :
      (reply : Reply) (s : r.Store) → IsPlain reply → checked (some reply, s) ≡ ok (value reply, s)
  checked_plain (error m) s p = absurd p
  checked_plain _ s p = refl

  pub Returns-command :
      {c : Command} {s : r.Store} {reply : Reply} {d : Db}
      → IsPlain reply
      → Answers r laws.Ready laws.db s c reply d
      → Returns (command r c) s reply d
  Returns-command {reply = reply} p h = record {
    after = h.after;
    run = rw h.run (checked_plain reply h.after p);
    ready_after = h.ready_after;
    contents = h.contents;
  }
