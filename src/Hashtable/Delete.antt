-- ===== src/Hashtable/Delete.antt =====
-- What `hash_delete` does, and what it does to the keys that were stored behind the deleted one.
use chat_hub.Base.{
  ℕ, zero, suc, ◌-◌, ◌%◌, ◌<◌, ◌≡◌, refl, true, Option, none, some, ℤ, abs, get_elem?, set,
  lt_of_get_elem?, get_elem?-set_self, arith,
}
use chat_hub.Run.{ok, ◌>>=◌}
use chat_hub.Hashtable.{HashNode, Slots, HashMap, hash_get, hash_delete}
use chat_hub.Hashtable.Seek.{stops, seek, drop_at, seek-set_self, delete_loop-seek}
use chat_hub.Hashtable.Stop.{hash_of_pos}
use chat_hub.Hashtable.Content.{HoldsAt}
use chat_hub.Hashtable.Probed.{IsProbed, seek_key}
use chat_hub.Hashtable.Lookup.{hash_get-eq-slot}

pub hash_delete-eq-drop_at :
    (hm : HashMap) (key : ℤ) (i : ℕ) (s : Option HashNode)
    → 0 < hm.cap
    → seek_key hm key ≡ ok i
    → get_elem? hm.slots i ≡ some s
    → hash_delete hm key ≡ ok (drop_at hm i s)
unfolding hash_delete
hash_delete-eq-drop_at hm key i s pos e there =
    rw (hash_of_pos key hm.cap pos, delete_loop-seek, e) (ground arith)

-- a search that starts at a slot to stop at
pub seek_here :
    (f : ℕ) (ht : Slots) (cap : ℕ) (key : ℤ) (h : ℕ) (s : Option HashNode)
    → 0 < f
    → get_elem? ht h ≡ some s
    → stops key s ≡ true
    → seek f ht cap key h ≡ ok h
unfolding seek
seek_here zero ht cap key h s pos here stop = elim pos [ ]
seek_here (suc f) ht cap key h s pos here stop = ground arith

-- A node is deleted: the call returns its value, and the key is then read as NULL.
pub hash_get-hash_delete_self :
    {hm : HashMap} (i : ℕ) (n : HashNode)
    → IsProbed hm
    → HoldsAt hm.slots i n
    → (hm' : HashMap) × (hash_delete hm n.key ≡ ok (hm', n.value)) × (hash_get hm' n.key ≡ ok 0)
hash_get-hash_delete_self {hm} i n v held =
    let e = v.reach i n held in
    let lt = lt_of_get_elem? hm.slots i (some n) held in
    (
      record { slots = set hm.slots i none; cap = hm.cap; size = hm.size - 1 },
      hash_delete-eq-drop_at hm n.key i (some n) v.pos e held,
      hash_get-eq-slot _ n.key i none v.pos
          (seek-set_self hm.cap hm.slots hm.cap n.key (abs n.key % hm.cap) i none refl e)
          (get_elem?-set_self hm.slots i none lt),
    )

-- In a table that meets the invariant of probing, the slot of a deleted key becomes empty, and empty
-- slots end a search. So a key whose search starts at that slot is read as NULL after the call, also
-- where the table still holds it.
pub hash_get-hash_delete_hidden :
    {hm : HashMap} (n : HashNode) (b : ℤ)
    → IsProbed hm
    → HoldsAt hm.slots (abs b % hm.cap) n
    → (hash_delete hm n.key >>= λ r. hash_get r.0 b) ≡ ok 0
hash_get-hash_delete_hidden {hm} n b v held =
    let i = abs b % hm.cap in
    let lt = lt_of_get_elem? hm.slots i (some n) held in
    let empty = get_elem?-set_self hm.slots i none lt in
    rw (hash_delete-eq-drop_at hm n.key i (some n) v.pos (v.reach i n held) held) (
      hash_get-eq-slot (record { slots = set hm.slots i none; cap = hm.cap; size = hm.size - 1 }) b
        i none v.pos (seek_here hm.cap (set hm.slots i none) hm.cap b i none v.pos empty refl)
        empty)
