-- ===== src/Hashtable/Seek.antt =====
-- The three loops of the table stop at one slot: the first, going round from the hash of the key,
-- that is empty or holds the key.
use native.Mathlib.Decide.{ℕ_discrete}
use chat_hub.Base.{
  ℕ, zero, suc, ◌+◌, ◌-◌, ◌≡◌, refl, sym, ap, ◌∙◌, ◌≢◌, inl, inr, Bool, true, false, Option, none,
  some, ℤ, eq_ℤ, get_elem?, set, get_elem?-set_self, get_elem?-set_ne, lt_of_get_elem?, arith,
  Bool-cases, Option-cases,
}
use chat_hub.Run.{Run, ok, fault, out_of_bounds, endless, ◌>>=◌}
use chat_hub.Hashtable.{HashNode, Slots, HashMap, next_slot, find_loop, set_loop, delete_loop}

-- does the loop for `key` stop at this slot?
abbrev pub stops : ℤ → Option HashNode → Bool
stops key none = true
stops key (some node) = eq_ℤ node.key key

unfoldable pub seek : ℕ → Slots → ℕ → ℤ → ℕ → Run ℕ
seek zero ht cap key h = fault endless
seek (suc f) ht cap key h = elim (get_elem? ht h) [
  | none ↦ fault out_of_bounds
  | some s ↦ elim (stops key s) [ true ↦ ok h | false ↦ seek f ht cap key (next_slot cap h) ]
]

abbrev pub slot_at : Slots → ℕ → Run (Option HashNode)
slot_at ht i = elim (get_elem? ht i) [ none ↦ fault out_of_bounds | some s ↦ ok s ]

pub find_loop-seek :
    (f : ℕ) (ht : Slots) (cap : ℕ) (key : ℤ) (h : ℕ)
    → find_loop f ht cap key h ≡ (seek f ht cap key h >>= λ i. slot_at ht i)
unfolding find_loop seek
find_loop-seek zero ht cap key h = refl
find_loop-seek (suc f) ht cap key h = ground (arith, find_loop-seek f ht cap key (next_slot cap h))

-- what `hash_set` does at the slot where its loop stops
abbrev pub put_at : HashMap → ℤ → ℕ → ℕ → Option HashNode → HashMap
put_at hm key value i none = record {
  slots = set hm.slots i (some (record { key = key; value = value }));
  cap = hm.cap;
  size = hm.size + 1;
}
put_at hm key value i (some node) = record hm {
  slots = set hm.slots i (some (record node { value = value }));
}

pub set_loop-seek :
    (f : ℕ) (hm : HashMap) (key : ℤ) (value h : ℕ)
    → set_loop f hm key value h ≡ (
        seek f hm.slots hm.cap key h >>= λ i.
        slot_at hm.slots i >>= λ s. ok (put_at hm key value i s))
unfolding set_loop seek
set_loop-seek zero hm key value h = refl
set_loop-seek (suc f) hm key value h =
    ground (arith, set_loop-seek f hm key value (next_slot hm.cap h))

-- what `hash_delete` does there
abbrev pub drop_at : HashMap → ℕ → Option HashNode → HashMap × ℕ
drop_at hm i none = (hm, 0)
drop_at hm i (some node) =
    (record { slots = set hm.slots i none; cap = hm.cap; size = hm.size - 1 }, node.value)

pub delete_loop-seek :
    (f : ℕ) (hm : HashMap) (key : ℤ) (h : ℕ)
    → delete_loop f hm key h
      ≡ (seek f hm.slots hm.cap key h >>= λ i. slot_at hm.slots i >>= λ s. ok (drop_at hm i s))
unfolding delete_loop seek
delete_loop-seek zero hm key h = refl
delete_loop-seek (suc f) hm key h = ground (arith, delete_loop-seek f hm key (next_slot hm.cap h))

-- Where the loop stops there is a slot, and it is one to stop at.
pub seek-stops :
    (f : ℕ) (ht : Slots) (cap : ℕ) (key : ℤ) (h i : ℕ)
    → seek f ht cap key h ≡ ok i
    → (s : Option HashNode) × (get_elem? ht i ≡ some s) × (stops key s ≡ true)
unfolding seek
seek-stops zero ht cap key h i e = ground arith
seek-stops (suc f) ht cap key h i e = elim (Option-cases (get_elem? ht h)) [
  | inl out ↦ ground arith
  | inr (s, here) ↦ elim (Bool-cases (stops key s)) [
    | inl stop ↦ (s, ground arith, stop)
    | inr go ↦ seek-stops f ht cap key (next_slot cap h) i (ground arith)
  ]
]

-- A slot that the loop passes is not the one where it stops.
passed-ne :
    (f : ℕ) (ht : Slots) (cap : ℕ) (key : ℤ) (h i : ℕ) (t : Option HashNode)
    → get_elem? ht h ≡ some t
    → stops key t ≡ false
    → seek f ht cap key (next_slot cap h) ≡ ok i
    → i ≢ h
passed-ne f ht cap key h i t here go e p =
    let (s, there, stop) = seek-stops f ht cap key (next_slot cap h) i e in
    let same : some t ≡ some s = sym here ∙ (ap (get_elem? ht) (sym p) ∙ there) in ground arith

-- A write at the slot where the loop stops is where it stops again, if the new slot is one to
-- stop at.
pub seek-set_self :
    (f : ℕ) (ht : Slots) (cap : ℕ) (key : ℤ) (h i : ℕ) (s : Option HashNode)
    → stops key s ≡ true
    → seek f ht cap key h ≡ ok i
    → seek f (set ht i s) cap key h ≡ ok i
unfolding seek
seek-set_self zero ht cap key h i s st e = ground arith
seek-set_self (suc f) ht cap key h i s st e = elim (Option-cases (get_elem? ht h)) [
  | inl out ↦ ground arith
  | inr (t, here) ↦ elim (Bool-cases (stops key t)) [
    | inl stop ↦ ground (arith, get_elem?-set_self ht h s (lt_of_get_elem? ht h t here))
    | inr go ↦
        let rest : seek f ht cap key (next_slot cap h) ≡ ok i = ground arith in
        let ne : i ≢ h = passed-ne f ht cap key h i t here go rest in
        ground (
          arith,
          get_elem?-set_ne ht i h s ne,
          seek-set_self f ht cap key (next_slot cap h) i s st rest,
        )
  ]
]

-- A write at another slot, of a node that the loop passes, changes nothing for the loop.
pub seek-set_ne :
    (f : ℕ) (ht : Slots) (cap : ℕ) (key : ℤ) (h i j : ℕ) (s : Option HashNode)
    → stops key s ≡ false
    → i ≢ j
    → seek f ht cap key h ≡ ok j
    → seek f (set ht i s) cap key h ≡ ok j
unfolding seek
seek-set_ne zero ht cap key h i j s st ne e = ground arith
seek-set_ne (suc f) ht cap key h i j s st ne e = elim (Option-cases (get_elem? ht h)) [
  | inl out ↦ ground arith
  | inr (t, here) ↦ elim (ℕ_discrete i h) [
    | yes p ↦ ground (
      arith,
      get_elem?-set_self ht i s (rw p (lt_of_get_elem? ht h t here)),
      seek-set_ne f ht cap key (next_slot cap h) i j s st ne,
    )
    | no n ↦
        ground (
          arith,
          get_elem?-set_ne ht i h s n,
          seek-set_ne f ht cap key (next_slot cap h) i j s st ne,
        )
  ]
]
