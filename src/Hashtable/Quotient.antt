-- ===== src/Hashtable/Quotient.antt =====
-- The table of descriptors without its representation: the nodes and their order of arrival are
-- forgotten, what `hash_get` returns is kept.
use mathlib.Core.Quot
use mathlib.Core.Quot.{Quot}
use native.Mathlib.Nat.{ℕ_set}
use chat_hub.Base.{ℕ, suc, ◌<◌, ◌≡◌, ◌≢◌, ◌↔◌, sym, ◌∙◌, ap, pos, ◌==◌, if◌then◌else◌, arith}
use chat_hub.Run.{Run, ok, ◌>>=◌}
use chat_hub.Hashtable.{HashMap, hash_get, hash_set}
use chat_hub.Hashtable.Direct.{IsDirect, view, hash_get-view, hash_set-Updates}

-- a table for the descriptors below `cap - 1`
pub record Table (cap : ℕ) : Type 0 where
  pub map : HashMap
  pub valid : IsDirect map
  pub same_cap : map.cap ≡ cap

-- every descriptor has the same pointer
abbrev pub SameView : {cap : ℕ} → Table cap → Table cap → Type 0
SameView {cap} s t = (k : ℕ) → suc k < cap → view s.map k ≡ view t.map k

abbrev pub Clients : ℕ → Type 0
Clients cap = Quot (SameView {cap = cap})

module _ {cap : ℕ} (k : ℕ) (small : suc k < cap) where
  pointer : Clients cap → ℕ
  pointer = Quot.lift ℕ_set (λ s. view s.map k) (λ s t h. h k small)

  get-view : (s : Table cap) → hash_get s.map (pos k) ≡ ok (view s.map k)
  get-view s = hash_get-view s.valid k (rw s.same_cap small)

ok-injective : (a b : ℕ) → ◌≡◌ {A = Run ℕ} (ok a) (ok b) → a ≡ b
ok-injective a b e = ground arith

-- two tables are the same table of clients exactly when `hash_get` returns the same
same_clients_iff :
    {cap : ℕ} (s t : Table cap)
    → (◌≡◌ {A = Clients cap} (Quot.mk s) (Quot.mk t))
      ↔ ((k : ℕ) → suc k < cap → hash_get s.map (pos k) ≡ hash_get t.map (pos k))
unfolding pointer
same_clients_iff {cap} s t = (
  λ e k small. get-view k small s ∙ ap (λ c. ok (pointer k small c)) e ∙ sym (get-view k small t),
  λ h.
      Quot.sound
        (λ k small. ok-injective _ _ (sym (get-view k small s) ∙ (h k small ∙ get-view k small t))),
)

-- `hash_set` on a table, with the table that it returns
set_table :
    {cap : ℕ} (s : Table cap) (k x : ℕ)
    → suc k < cap
    → (t : Table cap) × (hash_set s.map (pos k) x ≡ ok t.map)
      × ((q : ℕ) → view t.map q ≡ (if q == k then x else view s.map q))
set_table s k x small =
    let (map, run, u) = hash_set-Updates s.valid k (rw s.same_cap small) x in
    (record { map = map; valid = u.valid; same_cap = u.same_cap ∙ s.same_cap }, run, u.reads)

-- what `hash_get` returns after the two calls
abbrev pub Reads : {cap : ℕ} → Table cap → Table cap → ℕ → ℕ → ℕ → ℕ → Type 0
Reads {cap} s t k l x y =
    (q : ℕ)
    → suc q < cap
    → hash_get t.map (pos q)
      ≡ (if q == k then ok x else (if q == l then ok y else hash_get s.map (pos q)))

set_both :
    {cap : ℕ} (s : Table cap) (k l x y : ℕ)
    → suc k < cap
    → suc l < cap
    → k ≢ l
    → (t : Table cap) × ((hash_set s.map (pos k) x >>= λ h. hash_set h (pos l) y) ≡ ok t.map)
      × Reads s t k l x y
set_both s k l x y small_k small_l other =
    let (s1, run1, reads1) = set_table s k x small_k in
    let (t, run2, reads2) = set_table s1 l y small_l in
    (
      t,
      rw (run1, run2),
      λ q small. rw (get-view q small t, get-view q small s) (ground (arith, reads1 q, reads2 q)),
    )

-- The order of two connections does not matter: for different descriptors `k` and `l` below `cap - 1`, the
-- two calls of `hash_set` return in both orders, and leave the same table of clients. In both tables
-- `hash_get` returns the one pointer for `k`, the other for `l`, and what it returned before for every
-- other descriptor below `cap - 1`.
pub hash_set_comm :
    {cap : ℕ} (s : Table cap) (k l x y : ℕ)
    → suc k < cap
    → suc l < cap
    → k ≢ l
    → (a : Table cap) × (b : Table cap) × ((hash_set s.map (pos k) x >>= λ h. hash_set h (pos l) y)
        ≡ ok a.map)
      × ((hash_set s.map (pos l) y >>= λ h. hash_set h (pos k) x) ≡ ok b.map)
      × (◌≡◌ {A = Clients cap} (Quot.mk a) (Quot.mk b))
      × Reads s a k l x y
      × Reads s b k l x y
hash_set_comm s k l x y small_k small_l other =
    let (a, run_a, reads_a) = set_both s k l x y small_k small_l other in
    let (b, run_b, reads_b) = set_both s l k y x small_l small_k (λ e. other (sym e)) in
    let swapped : Reads s b k l x y = λ q small. reads_b q small ∙ ground arith in
    (
      a,
      b,
      run_a,
      run_b,
      (same_clients_iff a b).1 (λ q small. reads_a q small ∙ sym (swapped q small)),
      reads_a,
      swapped,
    )
