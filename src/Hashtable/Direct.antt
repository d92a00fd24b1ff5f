-- ===== src/Hashtable/Direct.antt =====
-- The table as the server uses it: keys are descriptors below `cap - 1`, so each has a slot of its
-- own and no search goes past it.
use chat_hub.Base.{
  ℕ, suc, ◌+◌, ◌-◌, ◌%◌, ◌<◌, ◌≡◌, refl, sym, ap, ◌∙◌, true, Option, none, some, pos, eq_ℤ_refl,
  abs, length, ◌==◌, if◌then◌else◌, get_elem?, get_elem?-eq-some, set, length-replicate, length-set,
  lt_of_get_elem?, get_elem?-set_self, get_elem?-set_ne, arith,
}
use native.Mathlib.Decide.{ℕ_discrete}
use native.Mathlib.Nat.{mod-eq_of_lt}
use chat_hub.Run.{ok}
use chat_hub.Hashtable.{
  HashNode, HashMap, hash_init, hash_get, hash_set, hash_delete, value_or_null,
}
use chat_hub.Hashtable.Seek.{stops, put_at, drop_at}
use chat_hub.Hashtable.Content.{
  HoldsAt, occupied, occupied-replicate, occupied-set, weight, not_full,
}
use chat_hub.Hashtable.Probed.{fresh_empty, seek_key, hash_set-eq-put_at}
use chat_hub.Hashtable.Lookup.{hash_get-eq-slot}
use chat_hub.Hashtable.Delete.{seek_here, hash_delete-eq-drop_at}

pub record IsDirect (hm : HashMap) : Type 0 where
  pub pos_cap : 0 < hm.cap
  pub shape : length hm.slots ≡ hm.cap
  pub counted : hm.size ≡ occupied hm.slots
  pub direct : (i : ℕ) (n : HashNode) → HoldsAt hm.slots i n → (n.key ≡ pos i) × (suc i < hm.cap)

-- the value under a descriptor, with 0 for none
abbrev pub slot_value : Option (Option HashNode) → ℕ
slot_value none = 0
slot_value (some s) = value_or_null s

abbrev pub view : HashMap → ℕ → ℕ
view hm k = slot_value (get_elem? hm.slots k)

module _ {hm : HashMap} (v : IsDirect hm) (k : ℕ) (small : suc k < hm.cap) where
  home : abs (pos k) % hm.cap ≡ k
  home = mod-eq_of_lt (omega arith)

  own_slot : (s : Option HashNode) → get_elem? hm.slots k ≡ some s → stops (pos k) s ≡ true
  own_slot none there = refl
  own_slot (some n) there = rw ((v.direct k n there).0) (eq_ℤ_refl (pos k))

  -- the slot of the key, and the search for it
  pub direct_slot :
      (s : Option HashNode) × (get_elem? hm.slots k ≡ some s) × (seek_key hm (pos k) ≡ ok k)
  direct_slot =
      let (s, there) = get_elem?-eq-some hm.slots k (omega (arith, v.shape)) in
      (
        s,
        there,
        rw home (seek_here hm.cap hm.slots hm.cap (pos k) k s v.pos_cap there (own_slot s there)),
      )

  -- `hash_get` returns the value under the descriptor, whether the table is full or not.
  pub hash_get-view : hash_get hm (pos k) ≡ ok (view hm k)
  hash_get-view =
      let (s, there, e) = direct_slot in
      rw there (hash_get-eq-slot hm (pos k) k s v.pos_cap e there)

-- `hm'` is `hm` with slot `k` made to hold `x`.
pub record Updates (hm : HashMap) (k x : ℕ) (hm' : HashMap) : Type 0 where
  pub valid : IsDirect hm'
  pub same_cap : hm'.cap ≡ hm.cap
  pub reads : (q : ℕ) → view hm' q ≡ (if q == k then x else view hm q)

pub hash_init-IsDirect : (cap : ℕ) → 0 < cap → IsDirect (hash_init cap)
unfolding hash_init
hash_init-IsDirect size h = record {
  pos_cap = h;
  shape = length-replicate size none;
  counted = sym (occupied-replicate size);
  direct = λ i n e. absurd (fresh_empty size i n e);
}

-- A new slot content at `k`, of weight within the count.
set-Updates :
    {hm : HashMap} (v : IsDirect hm) (k : ℕ) (old new : Option HashNode) (size : ℕ)
    → suc k < hm.cap
    → get_elem? hm.slots k ≡ some old
    → ((n : HashNode) → new ≡ some n → n.key ≡ pos k)
    → size + weight old ≡ hm.size + weight new
    → Updates hm k
        (value_or_null new)
        (record { slots = set hm.slots k new; cap = hm.cap; size = size })
set-Updates {hm} v k old new size small there keyed count = record {
  valid = record {
    pos_cap = v.pos_cap;
    shape = length-set hm.slots k new ∙ v.shape;
    counted = omega (arith, v.counted, occupied-set hm.slots k old new there);
    direct = λ i n h. elim (ℕ_discrete k i) [
      | yes p ↦
          let here = get_elem?-set_self hm.slots k new (lt_of_get_elem? hm.slots k old there) in
          let same : some new ≡ some (some n) =
            sym here ∙ (ap (get_elem? (set hm.slots k new)) p ∙ h) in
          (keyed n (ground arith) ∙ ap pos p, omega arith)
      | no d ↦ v.direct i n (sym (get_elem?-set_ne hm.slots k i new d) ∙ h)
    ];
  };
  same_cap = refl;
  reads = λ q. elim (ℕ_discrete q k) [
    | yes p ↦ ground (
      arith,
      ap (get_elem? (set hm.slots k new)) p,
      get_elem?-set_self hm.slots k new (lt_of_get_elem? hm.slots k old there),
    )
    | no d ↦ ground (arith, get_elem?-set_ne hm.slots k q new (λ e. d (sym e)))
  ];
}

-- The last slot belongs to no descriptor, so the table is never full.
pub direct_room : {hm : HashMap} → IsDirect hm → hm.size < hm.cap
direct_room {hm} v =
    let (s, there) = get_elem?-eq-some hm.slots (hm.cap - 1) (omega (arith, v.shape, v.pos_cap)) in
    by_slot s there
  where
    by_slot : (s : Option HashNode) → get_elem? hm.slots (hm.cap - 1) ≡ some s → hm.size < hm.cap
    by_slot none there = omega (arith, not_full hm.slots (hm.cap - 1) there, v.shape, v.counted)
    by_slot (some n) there =
        let (_, bound) = v.direct (hm.cap - 1) n there in absurd (omega (arith, v.pos_cap))

module _ {hm : HashMap} (v : IsDirect hm) (k : ℕ) (small : suc k < hm.cap) where
  put_at-Updates :
      (x : ℕ) (s : Option HashNode)
      → get_elem? hm.slots k ≡ some s
      → Updates hm k x (put_at hm (pos k) x k s)
  put_at-Updates x none there =
      set-Updates v k none (some (record { key = pos k; value = x })) (hm.size + 1) small there
        (λ n e. ground arith) (omega arith)
  put_at-Updates x (some n) there =
      let (key_n, _) = v.direct k n there in
      set-Updates v k (some n) (some (record n { value = x })) hm.size small there
        (λ m e. ground arith) (omega arith)

  -- `hash_set` returns, and the table then reads as before but for the new value.
  pub hash_set-Updates :
      (x : ℕ) → (hm' : HashMap) × (hash_set hm (pos k) x ≡ ok hm') × Updates hm k x hm'
  hash_set-Updates x =
      let (s, there, e) = direct_slot v k small in
      (
        put_at hm (pos k) x k s,
        hash_set-eq-put_at hm (pos k) x k s v.pos_cap (direct_room v) e there,
        put_at-Updates x s there,
      )

  same_view :
      (q : ℕ) → get_elem? hm.slots k ≡ some none → view hm q ≡ (if q == k then 0 else view hm q)
  same_view q there = elim (ℕ_discrete q k) [
    | yes p ↦ ground (arith, ap (get_elem? hm.slots) p)
    | no d ↦ ground arith
  ]

  drop_at-Updates :
      (s : Option HashNode)
      → get_elem? hm.slots k ≡ some s
      → Updates hm k 0 (drop_at hm k s).0 × ((drop_at hm k s).1 ≡ value_or_null s)
  drop_at-Updates none there =
      (record { valid = v; same_cap = refl; reads = λ q. same_view q there }, refl)
  drop_at-Updates (some n) there = (
    set-Updates v k (some n) none (hm.size - 1) small there (λ m e. ground arith)
        (omega (arith, occupied-set hm.slots k (some n) none there, v.counted)),
    refl,
  )

  -- `hash_delete` returns the value that the descriptor had, which is then read as NULL.
  pub hash_delete-Updates :
      (hm' : HashMap) × (hash_delete hm (pos k) ≡ ok (hm', view hm k)) × Updates hm k 0 hm'
  hash_delete-Updates =
      let (s, there, e) = direct_slot v k small in
      let (u, val) = drop_at-Updates s there in
      (
        (drop_at hm k s).0,
        hash_delete-eq-drop_at hm (pos k) k s v.pos_cap e there
            ∙ ap (λ x. ok ((drop_at hm k s).0, x)) (val ∙ sym (ap slot_value there)),
        u,
      )
