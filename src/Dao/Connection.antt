-- ===== src/Dao/Connection.antt =====
-- The connection to the database (server/dao.c): `open_db` and `close_db`. hiredis is a parameter:
-- `connect` is what `redisConnect` returns, NULL or a context with its error code.
use chat_hub.Base.{
  ℕ, ◌+◌, ◌-◌, ◌≡◌, ◌⊎◌, inl, inr, refl, Bool-cases, Option, none, some, ℤ, pos, eq_ℤ, eq_ℤ_iff,
  if◌then◌else◌, arith, Option-cases,
}
use chat_hub.Process.{Process, running, exited}
use chat_hub.Text.{Bytes}

-- `redisContext`
pub record Context : Type 0 where
  pub err : ℤ

-- the variable `c`, and the number of contexts that are allocated
pub record Connection : Type 0 where
  pub context : Option Context
  pub allocated : ℕ

module _ (connect : Bytes → ℕ → Option Context) where
  -- where the connection fails: `redisFree(c)` unless it is NULL, then `exit(1)`
  unfoldable pub open_db : Bytes → ℕ → Connection → Process Connection
  open_db host port db = elim (connect host port) [
    | none ↦ exited (pos 1) (record db { context = none })
    | some c ↦
        if eq_ℤ c.err (pos 0)
        then running (record { context = some c; allocated = db.allocated + 1 })
        else exited (pos 1) (record db { context = some c })
  ]

unfoldable pub close_db : Connection → Connection
close_db db = elim db.context [ none ↦ db | some c ↦ record db { allocated = db.allocated - 1 } ]

-- After `open_db` the program runs on with a context without an error, and `close_db` frees the
-- context that was allocated; or the program has ended with the code 1 and no context is left over.
pub close_db-open_db :
    (connect : Bytes → ℕ → Option Context) (host : Bytes) (port : ℕ) (db : Connection)
    → ((c : Context) × (connect host port ≡ some c)
        × (c.err ≡ pos 0)
        × (now : Connection) × (open_db connect host port db ≡ running now)
        × (now.context ≡ some c)
        × ((close_db now).allocated ≡ db.allocated))
      ⊎ ((end : Connection) × (open_db connect host port db ≡ exited (pos 1) end)
          × (end.allocated ≡ db.allocated))
unfolding open_db close_db
close_db-open_db connect host port db = elim (Option-cases (connect host port)) [
  | inl none_made ↦ inr (record db { context = none }, rw (open_db, none_made), refl)
  | inr (c, made) ↦ elim (Bool-cases (eq_ℤ c.err (pos 0))) [
    | inl fine ↦ inl (
      c,
      made,
      (eq_ℤ_iff c.err (pos 0)).0 fine,
      record { context = some c; allocated = db.allocated + 1 },
      rw (open_db, made, fine),
      refl,
      omega arith,
    )
    | inr failed ↦ inr (record db { context = some c }, rw (open_db, made, failed), refl)
  ]
]
