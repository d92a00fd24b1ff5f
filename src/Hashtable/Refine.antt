-- ===== src/Hashtable/Refine.antt =====
-- The table of descriptors against its specification, a function from descriptors to pointers.
use chat_hub.Base.{
  zero, suc, ap, ◌∙◌, ◌<◌, refl, ℕ, ◌≡◌, pos, List, [], ◌∷◌, ◌==◌, if◌then◌else◌, All,
}
use mathlib.Core.Path.{fun_ext}
use chat_hub.Run.{Run, ok, ◌>>=◌}
use chat_hub.Hashtable.{HashMap, hash_init, hash_get, hash_set, hash_delete}
use chat_hub.Hashtable.Direct.{
  hash_init-IsDirect, IsDirect, view, hash_get-view, hash_set-Updates, hash_delete-Updates,
}

-- a call, and what it returns (a `hash_set` returns nothing, 0 here)
pub data Op : Type 0 where
  put : ℕ → ℕ → Op
  get : ℕ → Op
  delete : ℕ → Op

unfoldable pub run : HashMap → List Op → Run (List ℕ)
run hm [] = ok []
run hm (put k x ∷ ops) = hash_set hm (pos k) x >>= λ hm'. run hm' ops >>= λ r. ok (0 ∷ r)
run hm (get k ∷ ops) = hash_get hm (pos k) >>= λ x. run hm ops >>= λ r. ok (x ∷ r)
run hm (delete k ∷ ops) = hash_delete hm (pos k) >>= λ d. run d.0 ops >>= λ r. ok (d.1 ∷ r)

-- The specification.
abbrev pub Table : Type 0
Table = ℕ → ℕ

abbrev pub update : Table → ℕ → ℕ → Table
update t k x q = if q == k then x else t q

unfoldable pub run_table : Table → List Op → List ℕ
run_table t [] = []
run_table t (put k x ∷ ops) = 0 ∷ run_table (update t k x) ops
run_table t (get k ∷ ops) = t k ∷ run_table t ops
run_table t (delete k ∷ ops) = t k ∷ run_table (update t k 0) ops

abbrev pub op_key : Op → ℕ
op_key (put k x) = k
op_key (get k) = k
op_key (delete k) = k

-- A table in which each descriptor has its own slot returns, for every sequence of calls on
-- descriptors below `cap - 1`, what a plain function from descriptors to pointers returns; no call
-- faults or hangs.
pub run_refines :
    (ops : List Op) {hm : HashMap}
    → IsDirect hm
    → All (λ op. suc (op_key op) < hm.cap) ops
    → run hm ops ≡ ok (run_table (view hm) ops)
unfolding run run_table
run_refines [] v h = refl
run_refines (put k x ∷ ops) {hm} v (small, rest) =
    let (hm', e, u) = hash_set-Updates v k small x in
    rw (e, run_refines ops u.valid (rw u.same_cap rest), fun_ext u.reads)
run_refines (get k ∷ ops) {hm} v (small, rest) =
    rw (hash_get-view v k small, run_refines ops v rest)
run_refines (delete k ∷ ops) {hm} v (small, rest) =
    let (hm', e, u) = hash_delete-Updates v k small in
    rw (e, run_refines ops u.valid (rw u.same_cap rest), fun_ext u.reads)

pub init_view : (size q : ℕ) → view (hash_init size) q ≡ 0
unfolding hash_init
init_view zero q = refl
init_view (suc n) zero = refl
init_view (suc n) (suc q) = unfold hash_init in init_view n q

-- From `hash_init` on, every sequence of calls on descriptors below `cap - 1` returns what the
-- function that starts at NULL everywhere returns; no call faults or hangs.
pub run_from_init :
    (size : ℕ) (ops : List Op)
    → 0 < size
    → All (λ op. suc (op_key op) < size) ops
    → run (hash_init size) ops ≡ ok (run_table (λ q. 0) ops)
unfolding hash_init
run_from_init size ops h small =
    run_refines ops (hash_init-IsDirect size h) small
    ∙ ap (λ t. ok (run_table t ops)) (fun_ext (init_view size))
