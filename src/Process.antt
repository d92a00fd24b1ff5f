-- ===== src/Process.antt =====
-- A program that runs on or has called `exit`.
use chat_hub.Base.{ℤ}

pub data Process (S : Type 0) : Type 0 where
  running : S → Process S
  exited : ℤ → S → Process S
