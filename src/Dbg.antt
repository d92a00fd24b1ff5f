-- ===== src/Dbg.antt =====
-- The macros of lib/dbg.h: what they write to the standard error output, and where they jump.
-- `strerror` is a parameter. `check_debug` cannot be expanded: it calls a macro that nothing defines.
use chat_hub.Base.{
  ◌≡◌, refl, ℕ, Bool, true, false, List, [], ◌∷◌, ◌++◌, ℤ, pos, eq_ℤ, if◌then◌else◌,
}
use chat_hub.Run.{Run, ok, fault}
use chat_hub.Exec.{Exec, Exit, value, goto_error}
use chat_hub.Exec
use chat_hub.Text.{Bytes, codes, show_ℕ}

-- `errno`, and the lines that have been written
pub record Log : Type 0 where
  pub errno : ℤ
  pub lines : List Bytes

-- `__FILE__` and `__LINE__`
pub record Place : Type 0 where
  pub file : Bytes
  pub line : ℕ

abbrev write_line : Bytes → Log → Log
write_line s log = record log { lines = log.lines ++ s ∷ [] }

abbrev position : Place → Bytes
position at = at.file ++ b':' ∷ show_ℕ at.line

-- `text` is the format with its arguments; with NDEBUG the macro is empty.
unfoldable pub log_d : Bool → Place → Bytes → Log → Log
log_d ndebug at text log =
    if ndebug then log else write_line (codes "[DEBUG] " ++ position at ++ 32 ∷ text ++ 10 ∷ []) log

module _ (strerror : ℤ → Bytes) where
  unfoldable pub clean_errno : ℤ → Bytes
  clean_errno errno = if eq_ℤ errno (pos 0) then codes "None" else strerror errno

  -- the line of `log_e`, `log_w` and `log_i`
  abbrev errno_line : Bytes → Place → Bytes → Log → Bytes
  errno_line level at text log =
      level
      ++ codes " ("
      ++ position at
      ++ codes ": errno:"
      ++ clean_errno log.errno
      ++ b')' ∷ text
      ++ 10 ∷ []

  unfoldable pub log_e : Place → Bytes → Log → Log
  log_e at text log = write_line (errno_line (codes "[ERROR]") at text log) log

  unfoldable pub log_w : Place → Bytes → Log → Log
  log_w at text log = write_line (errno_line (codes "[WARN]") at text log) log

  unfoldable pub log_i : Place → Bytes → Log → Log
  log_i at text log = write_line (errno_line (codes "[INFO]") at text log) log

  unfoldable pub check : Bool → Place → Bytes → Exec Log (Unit {0})
  check true at text log = ok (value tt, log)
  check false at text log = ok (goto_error, record (log_e at text log) { errno = pos 0 })

  unfoldable pub check_mem : Bool → Place → Exec Log (Unit {0})
  check_mem made at log = check made at (codes "Out of memory.") log

  -- The macro drops its format and logs `arguments`, formatted by the first of them.
  unfoldable pub senetinel : Bytes → Place → Bytes → Exec Log (Unit {0})
  senetinel format at arguments log =
      ok (goto_error, record (log_e at arguments log) { errno = pos 0 })

module _ {S : Type 0} where
  -- where the program goes on
  abbrev jump_of : Run (Exit (Unit {0}) × S) → Run (Exit (Unit {0}))
  jump_of (ok (x, s)) = ok x
  jump_of (fault e) = fault e

-- The step `check` of the other modules jumps where the macro jumps; they leave out the log.
pub check_lem :
    {S : Type 0} (strerror : ℤ → Bytes) (test : Bool) (at : Place) (text : Bytes) (log : Log)
    (s : S)
    → jump_of (check strerror test at text log) ≡ jump_of (Exec.check test s)
unfolding check
check_lem strerror true at text log s = refl
check_lem strerror false at text log s = refl
