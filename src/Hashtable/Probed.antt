-- ===== src/Hashtable/Probed.antt =====
-- The invariant of a table that is only filled and updated: every node is where the search for its
-- key stops. It is what `hash_get` needs, and `hash_set` keeps it.
use chat_hub.Base.{
  ℕ, ◌+◌, ◌%◌, ◌≤◌, ◌<◌, ◌≡◌, refl, sym, ap, ◌∙◌, ◌≢◌, inl, inr, true, false, Option, none, some, ℤ,
  eq_ℤ_iff, eq_ℤ_refl, leb, abs, length, get_elem?, set, replicate, eq_ℤ-false, lt_of_get_elem?,
  get_elem?-set_self, get_elem?-set_ne, get_elem?-replicate, length-set, length-replicate, arith,
  Bool-cases,
}
use native.Mathlib.Decide.{ℕ_discrete}
use chat_hub.Run.{Run, ok, ◌>>=◌, >>=_assoc}
use chat_hub.Hashtable.{HashNode, HashMap, hash_init, hash_get, hash_set, value_or_null}
use chat_hub.Hashtable.Seek.{
  stops, seek, slot_at, put_at, seek-stops, seek-set_self, seek-set_ne, find_loop-seek,
  set_loop-seek,
}
use chat_hub.Hashtable.Stop.{hash_of_pos, seek-ok}
use chat_hub.Hashtable.Content.{occupied, HoldsAt, occupied-set, occupied-replicate, empty_slot}

-- where the search for a key stops
abbrev pub seek_key : HashMap → ℤ → Run ℕ
seek_key hm key = seek hm.cap hm.slots hm.cap key (abs key % hm.cap)

pub record IsProbed (hm : HashMap) : Type 0 where
  pub pos : 0 < hm.cap
  pub shape : length hm.slots ≡ hm.cap
  pub counted : hm.size ≡ occupied hm.slots
  pub reach : (i : ℕ) (n : HashNode) → HoldsAt hm.slots i n → seek_key hm n.key ≡ ok i

pub fresh_empty : (cap i : ℕ) (n : HashNode) → HoldsAt (replicate cap none) i n → ⊥
fresh_empty size i n e =
    let lt = lt_of_get_elem? (replicate size none) i (some n) e in
    let same = get_elem?-replicate {A = Option HashNode} size i none (rw length-replicate at lt) in
    cc same

pub hash_init-IsProbed : (cap : ℕ) → 0 < cap → IsProbed (hash_init cap)
unfolding hash_init
hash_init-IsProbed cap h = record {
  pos = h;
  shape = length-replicate cap none;
  counted = sym (occupied-replicate cap);
  reach = λ i n e. absurd (fresh_empty cap i n e);
}

-- In a table with an empty slot every search stops.
pub seek_key-ok :
    {hm : HashMap} (key : ℤ) → IsProbed hm → hm.size < hm.cap → (i : ℕ) × (seek_key hm key ≡ ok i)
seek_key-ok {hm} key v room =
    let (j, e) = empty_slot hm.slots (omega (arith, v.shape, v.counted)) in
    seek-ok hm.slots hm.cap key (abs key % hm.cap) j none v.shape (omega (arith, v.pos)) e refl

pub hash_get-seek :
    (hm : HashMap) (key : ℤ)
    → 0 < hm.cap
    → hash_get hm key ≡ (seek_key hm key >>= λ i. slot_at hm.slots i >>= λ s. ok (value_or_null s))
unfolding hash_get
hash_get-seek hm key pos =
    rw (hash_of_pos key hm.cap pos, find_loop-seek)
      (>>=_assoc (seek_key hm key) (λ i. slot_at hm.slots i) (λ s. ok (value_or_null s)))

-- `hash_set` stores at the slot where the search stops.
pub hash_set-eq-put_at :
    (hm : HashMap) (key : ℤ) (value i : ℕ) (s : Option HashNode)
    → 0 < hm.cap
    → hm.size < hm.cap
    → seek_key hm key ≡ ok i
    → get_elem? hm.slots i ≡ some s
    → hash_set hm key value ≡ ok (put_at hm key value i s)
unfolding hash_set
hash_set-eq-put_at hm key value i s pos room e there =
    let roomy : leb hm.cap hm.size ≡ false = ground arith in
    rw (roomy, hash_of_pos key hm.cap pos, set_loop-seek, e) (ground arith)

-- the slot that `hash_set` writes
pub record Stored (hm : HashMap) (key : ℤ) (value : ℕ) : Type 0 where
  pub index : ℕ
  pub slot : Option HashNode
  pub sought : seek_key hm key ≡ ok index
  pub there : get_elem? hm.slots index ≡ some slot
  pub stop : stops key slot ≡ true
  pub run : hash_set hm key value ≡ ok (put_at hm key value index slot)

pub hash_set-Stored :
    {hm : HashMap} (key : ℤ) (value : ℕ) → IsProbed hm → hm.size < hm.cap → Stored hm key value
hash_set-Stored {hm} key value v room =
    let (i, e) = seek_key-ok key v room in
    let (s, there, stop) = seek-stops hm.cap hm.slots hm.cap key (abs key % hm.cap) i e in
    record {
      index = i;
      slot = s;
      sought = e;
      there = there;
      stop = stop;
      run = hash_set-eq-put_at hm key value i s v.pos room e there;
    }

-- A node that is written where the search for its key stops is found there, and so are the others.
reach_written :
    {hm : HashMap} (n0 : HashNode) (i : ℕ) (s : Option HashNode)
    → IsProbed hm
    → seek_key hm n0.key ≡ ok i
    → get_elem? hm.slots i ≡ some s
    → (j : ℕ) (n : HashNode) → HoldsAt (set hm.slots i (some n0)) j n
    → seek hm.cap (set hm.slots i (some n0)) hm.cap n.key (abs n.key % hm.cap) ≡ ok j
reach_written {hm} n0 i s v e there j n held = elim (ℕ_discrete i j) [
  | yes p ↦
      let self = get_elem?-set_self hm.slots i (some n0) (lt_of_get_elem? hm.slots i s there) in
      let same : n0 ≡ n = ground (arith, ap (get_elem? (set hm.slots i (some n0))) p) in
      let found =
        seek-set_self hm.cap hm.slots hm.cap n0.key (abs n0.key % hm.cap) i (some n0)
          (eq_ℤ_refl n0.key) e in
      rw (← same, ← p) found
  | no ne ↦
      let old : HoldsAt hm.slots j n = sym (get_elem?-set_ne hm.slots i j (some n0) ne) ∙ held in
      let at_j = v.reach j n old in
      let differ : n0.key ≢ n.key = λ p. ground (arith, ap (seek_key hm) p) in
      seek-set_ne hm.cap hm.slots hm.cap n.key (abs n.key % hm.cap) i j (some n0)
        (eq_ℤ-false n0.key n.key differ) ne at_j
]

pub put_at-IsProbed :
    {hm : HashMap} (key : ℤ) (value i : ℕ) (s : Option HashNode)
    → IsProbed hm
    → seek_key hm key ≡ ok i
    → get_elem? hm.slots i ≡ some s
    → stops key s ≡ true
    → IsProbed (put_at hm key value i s)
put_at-IsProbed {hm} key value i none v e there stop = record {
  pos = v.pos;
  shape = length-set hm.slots i _ ∙ v.shape;
  counted = omega (
    arith,
    v.counted,
    occupied-set hm.slots i none (some (record { key = key; value = value })) there,
  );
  reach = reach_written (record { key = key; value = value }) i none v e there;
}
put_at-IsProbed {hm} key value i (some node) v e there stop = record {
  pos = v.pos;
  shape = length-set hm.slots i _ ∙ v.shape;
  counted = omega (
    arith,
    v.counted,
    occupied-set hm.slots i (some node) (some (record node { value = value })) there,
  );
  reach =
      reach_written (record node { value = value }) i (some node) v
        (rw ((eq_ℤ_iff node.key key).0 stop) e) there;
}

-- `hash_set` adds a node at most.
pub record Grows (hm hm' : HashMap) : Type 0 where
  pub valid : IsProbed hm'
  pub same_cap : hm'.cap ≡ hm.cap
  pub not_less : hm.size ≤ hm'.size
  pub one_more : hm'.size ≤ hm.size + 1

pub put_at-Grows :
    {hm : HashMap} (key : ℤ) (value i : ℕ) (s : Option HashNode)
    → IsProbed (put_at hm key value i s)
    → Grows hm (put_at hm key value i s)
put_at-Grows key value i none v = record {
  valid = v;
  same_cap = refl;
  not_less = omega arith;
  one_more = omega arith;
}
put_at-Grows key value i (some n) v = record {
  valid = v;
  same_cap = refl;
  not_less = omega arith;
  one_more = omega arith;
}

-- On a table that meets the invariant `hash_set` returns, whatever the key and also where the
-- table is full; the result meets the invariant, has the same capacity, and at most one node more.
pub hash_set-Grows :
    {hm : HashMap} (key : ℤ) (value : ℕ)
    → IsProbed hm
    → (hm' : HashMap) × (hash_set hm key value ≡ ok hm') × Grows hm hm'
hash_set-Grows {hm} key value v = elim (Bool-cases (leb hm.cap hm.size)) [
  | inl full ↦ (
    hm,
    unfold hash_set in rw full,
    record { valid = v; same_cap = refl; not_less = omega arith; one_more = omega arith },
  )
  | inr roomy ↦
      let w = hash_set-Stored key value v (ground arith) in
      (
        put_at hm key value w.index w.slot,
        w.run,
        put_at-Grows key value w.index w.slot
            (put_at-IsProbed key value w.index w.slot v w.sought w.there w.stop),
      )
]
