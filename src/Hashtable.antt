-- ===== src/Hashtable.antt =====
-- lib/hashtable.c and lib/hashtable.h: a table with linear probing. An array slot is NULL (`none`)
-- or a node. A value is a pointer, as a number with 0 for NULL. Every loop takes fuel; the callers
-- give it `cap` rounds, and Hashtable/Stop shows that a loop that needs more never ends.
-- `malloc` and `calloc` are taken to succeed.
pub mod Seek
pub mod Stop
pub mod Content
pub mod Probed
pub mod Lookup
pub mod Delete
pub mod Direct
pub mod Refine
pub mod Quotient
pub mod Destroy
mod UnitTest
mod Examples
use chat_hub.Base.{
  ℕ, zero, suc, ◌+◌, ◌-◌, ◌%◌, true, false, Option, none, some, List, [], ◌∷◌, ℤ, eq_ℤ, abs, leb,
  ltb, if◌then◌else◌, get_elem?, set, replicate,
}
use chat_hub.Run.{read_elem, Run, ok, fault, out_of_bounds, division_by_zero, endless, ◌>>=◌}

pub record HashNode : Type 0 where
  pub key : ℤ
  pub value : ℕ

abbrev pub Slots : Type 0
Slots = List (Option HashNode)

-- `size` counts nodes; it is lowered only after a node was found.
pub record HashMap : Type 0 where
  pub slots : Slots
  pub cap : ℕ
  pub size : ℕ

unfoldable pub hash_init : ℕ → HashMap
hash_init cap = record { slots = replicate cap none; cap = cap; size = 0 }

-- `h < cap - 1 ? h + 1 : 0`
unfoldable pub next_slot : ℕ → ℕ → ℕ
next_slot cap h = if ltb h (cap - 1) then h + 1 else 0

-- `abs(key) % cap`
unfoldable pub hash_of : ℤ → ℕ → Run ℕ
hash_of key zero = fault division_by_zero
hash_of key (suc c) = ok (abs key % suc c)

-- the loop of `find`: the node with the key, or NULL at an empty slot
unfoldable pub find_loop : ℕ → Slots → ℕ → ℤ → ℕ → Run (Option HashNode)
find_loop zero ht cap key h = fault endless
find_loop (suc f) ht cap key h = elim (get_elem? ht h) [
  | none ↦ fault out_of_bounds
  | some none ↦ ok none
  | some (some node) ↦ elim (eq_ℤ node.key key) [
    | true ↦ ok (some node)
    | false ↦ find_loop f ht cap key (next_slot cap h)
  ]
]

unfoldable pub find : HashMap → ℤ → Run (Option HashNode)
find hm key = hash_of key hm.cap >>= λ h. find_loop hm.cap hm.slots hm.cap key h

abbrev pub value_or_null : Option HashNode → ℕ
value_or_null none = 0
value_or_null (some node) = node.value

unfoldable pub hash_get : HashMap → ℤ → Run ℕ
unfolding find
hash_get hm key = find hm key >>= λ node. ok (value_or_null node)

-- the loop of `hash_set`, with the insertion behind it
unfoldable pub set_loop : ℕ → HashMap → ℤ → ℕ → ℕ → Run HashMap
set_loop zero hm key value h = fault endless
set_loop (suc f) hm key value h = elim (get_elem? hm.slots h) [
  | none ↦ fault out_of_bounds
  | some none ↦ ok (record {
    slots = set hm.slots h (some (record { key = key; value = value }));
    cap = hm.cap;
    size = hm.size + 1;
  })
  | some (some node) ↦ elim (eq_ℤ node.key key) [
    | true ↦ ok (record hm { slots = set hm.slots h (some (record node { value = value })) })
    | false ↦ set_loop f hm key value (next_slot hm.cap h)
  ]
]

-- A full table is left alone, also where the key is in it.
unfoldable pub hash_set : HashMap → ℤ → ℕ → Run HashMap
hash_set hm key value =
    if leb hm.cap hm.size
    then ok hm
    else (hash_of key hm.cap >>= λ h. set_loop hm.cap hm key value h)

unfoldable pub delete_loop : ℕ → HashMap → ℤ → ℕ → Run (HashMap × ℕ)
delete_loop zero hm key h = fault endless
delete_loop (suc f) hm key h = elim (get_elem? hm.slots h) [
  | none ↦ fault out_of_bounds
  | some none ↦ ok (hm, 0)
  | some (some node) ↦ elim (eq_ℤ node.key key) [
    | true ↦
        ok (record { slots = set hm.slots h none; cap = hm.cap; size = hm.size - 1 }, node.value)
    | false ↦ delete_loop f hm key (next_slot hm.cap h)
  ]
]

-- the table after the call, and the value that it returns
unfoldable pub hash_delete : HashMap → ℤ → Run (HashMap × ℕ)
hash_delete hm key = hash_of key hm.cap >>= λ h. delete_loop hm.cap hm key h

-- `if ((hn = ht[i])) free(hn);`
abbrev pub free_slot : Option HashNode → List HashNode → List HashNode
free_slot none freed = freed
free_slot (some node) freed = node ∷ freed

-- the loop of `hash_destroy` with its rounds left: the nodes that it frees, in order
unfoldable pub destroy_loop : ℕ → Slots → ℕ → Run (List HashNode)
destroy_loop zero ht i = ok []
destroy_loop (suc rounds) ht i =
    read_elem ht i >>= λ s. destroy_loop rounds ht (i + 1) >>= λ freed. ok (free_slot s freed)

-- The array and the table itself are freed after the nodes.
unfoldable pub hash_destroy : HashMap → Run (List HashNode)
hash_destroy hm = destroy_loop hm.cap hm.slots 0
