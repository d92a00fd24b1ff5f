-- ===== src/Hashtable/Stop.antt =====
-- When the loops of the table end. They do if some slot is one to stop at, within `cap` rounds;
-- else they never do.
use chat_hub.Base.{
  ℕ, zero, suc, ◌+◌, ◌-◌, ◌%◌, ◌<◌, ◌≡◌, refl, sym, ap, ◌∙◌, ◌≢◌, ◌⊎◌, inl, inr, true, false,
  Option, some, ℤ, leb, abs, [], ◌∷◌, length, if◌then◌else◌, get_elem?, lt_of_get_elem?,
  get_elem?-eq-some, arith, Bool-cases,
}
use chat_hub.Run.{Run, ok, fault, division_by_zero, endless, ◌>>=◌}
use chat_hub.Hashtable.{HashNode, Slots, HashMap, next_slot, hash_of, find_loop, find}
use chat_hub.Hashtable.Seek.{stops, seek, slot_at, find_loop-seek}

pub hash_of_pos : (key : ℤ) (cap : ℕ) → 0 < cap → hash_of key cap ≡ ok (abs key % cap)
unfolding hash_of
hash_of_pos key zero h = elim h [ ]
hash_of_pos key (suc c) h = refl

pub next_slot-lt : (cap h : ℕ) → 0 < cap → next_slot cap h < cap
unfolding next_slot
next_slot-lt cap h pos = ground arith

-- rounds from slot `h` to slot `j`
gap : ℕ → ℕ → ℕ → ℕ
gap cap h j = if leb h j then j - h else cap - h + j

gap-next_slot :
    (cap h j : ℕ) → h < cap → j < cap → h ≢ j → gap cap (next_slot cap h) j + 1 ≡ gap cap h j
unfolding gap next_slot
gap-next_slot cap h j hh hj ne = ground arith

gap-lt : (cap h j : ℕ) → h < cap → j < cap → gap cap h j < cap
unfolding gap
gap-lt cap h j hh hj = ground arith

seek_within :
    (f : ℕ) (ht : Slots) (cap : ℕ) (key : ℤ) (h j : ℕ) (s : Option HashNode)
    → length ht ≡ cap
    → h < cap
    → get_elem? ht j ≡ some s
    → stops key s ≡ true
    → gap cap h j < f
    → (i : ℕ) × (seek f ht cap key h ≡ ok i)
unfolding seek
seek_within zero ht cap key h j s shape hh there stop lt = elim lt [ ]
seek_within (suc f) ht cap key h j s shape hh there stop lt =
    let (t, here) = get_elem?-eq-some ht h (rw shape hh) in
    elim (Bool-cases (stops key t)) [
      | inl done ↦ (h, ground arith)
      | inr go ↦
          let hj : j < cap = rw shape at (lt_of_get_elem? ht j s there) in
          let ne : h ≢ j = λ p. ground (arith, ap (get_elem? ht) p) in
          let (i, e) =
            seek_within f ht cap key (next_slot cap h) j s shape (next_slot-lt cap h (omega arith))
              there stop (omega (arith, gap-next_slot cap h j hh hj ne)) in
          (i, ground arith)
    ]

-- If some slot is empty or holds the key, `cap` rounds are enough.
pub seek-ok :
    (ht : Slots) (cap : ℕ) (key : ℤ) (h j : ℕ) (s : Option HashNode)
    → length ht ≡ cap
    → h < cap
    → get_elem? ht j ≡ some s
    → stops key s ≡ true
    → (i : ℕ) × (seek cap ht cap key h ≡ ok i)
seek-ok ht cap key h j s shape hh there stop =
    seek_within cap ht cap key h j s shape hh there stop
      (gap-lt cap h j hh (rw shape at (lt_of_get_elem? ht j s there)))

-- no slot is one to stop at
abbrev pub IsPassed : Slots → ℤ → Type 0
IsPassed ht key = (j : ℕ) (s : Option HashNode) → get_elem? ht j ≡ some s → stops key s ≡ false

pub seek_endless :
    (f : ℕ) (ht : Slots) (cap : ℕ) (key : ℤ) (h : ℕ)
    → length ht ≡ cap
    → h < cap
    → IsPassed ht key
    → seek f ht cap key h ≡ fault endless
unfolding seek
seek_endless zero ht cap key h shape hh passed = refl
seek_endless (suc f) ht cap key h shape hh passed =
    let (t, here) = get_elem?-eq-some ht h (rw shape hh) in
    ground (
      arith,
      passed h t here,
      seek_endless f ht cap key (next_slot cap h) shape (next_slot-lt cap h (omega arith)) passed,
    )

stop_or_IsPassed :
    (ht : Slots) (key : ℤ)
    → ((j : ℕ) × (s : Option HashNode) × (get_elem? ht j ≡ some s) × (stops key s ≡ true))
      ⊎ IsPassed ht key
stop_or_IsPassed [] key = inr (λ j s e. ground arith)
stop_or_IsPassed (t ∷ ht) key = elim (Bool-cases (stops key t)) [
  | inl here ↦ inl (0, t, refl, here)
  | inr go ↦ elim (stop_or_IsPassed ht key) [
    | inl found ↦ inl (suc found.0, found.1, found.2, found.3)
    | inr passed ↦ inr (passed_cons t ht key go passed)
  ]
]
  where
    passed_cons :
        (t : Option HashNode) (ht : Slots) (key : ℤ)
        → stops key t ≡ false
        → IsPassed ht key
        → IsPassed (t ∷ ht) key
    passed_cons t ht key go passed zero s e = ground arith
    passed_cons t ht key go passed (suc j) s e = passed j s e

-- A search that `cap` rounds do not end is never ended.
pub seek_exact :
    (ht : Slots) (cap : ℕ) (key : ℤ) (h : ℕ)
    → length ht ≡ cap
    → h < cap
    → seek cap ht cap key h ≡ fault endless
    → (f : ℕ) → seek f ht cap key h ≡ fault endless
seek_exact ht cap key h shape hh e f = elim (stop_or_IsPassed ht key) [
  | inl (j, s, there, stop) ↦
      let (i, found) = seek-ok ht cap key h j s shape hh there stop in ground arith
  | inr passed ↦ seek_endless f ht cap key h shape hh passed
]

hash_of_cases :
    (key : ℤ) (cap : ℕ)
    → (hash_of key cap ≡ fault division_by_zero)
      ⊎ ((0 < cap) × (hash_of key cap ≡ ok (abs key % cap)))
unfolding hash_of
hash_of_cases key zero = inl refl
hash_of_cases key (suc c) = inr (omega arith, refl)

slot_at-seek-ne-endless :
    (ht : Slots) (r : Run ℕ) → (r >>= λ i. slot_at ht i) ≡ fault endless → r ≡ fault endless
slot_at-seek-ne-endless ht (ok i) e = ground arith
slot_at-seek-ne-endless ht (fault x) e = ground arith

-- The model of `find` runs out of its `cap` rounds only where the loop of the source, started at
-- the hash of the key, never ends: then no number of rounds ends it. (The array has `cap` slots.)
pub find_endless_exact :
    (hm : HashMap) (key : ℤ)
    → length hm.slots ≡ hm.cap
    → find hm key ≡ fault endless
    → (f : ℕ) → find_loop f hm.slots hm.cap key (abs key % hm.cap) ≡ fault endless
unfolding find
find_endless_exact hm key shape e f = elim (hash_of_cases key hm.cap) [
  | inl zero_cap ↦ ground arith
  | inr (pos, h) ↦
      let hh : abs key % hm.cap < hm.cap = omega arith in
      let loop : find_loop hm.cap hm.slots hm.cap key (abs key % hm.cap) ≡ fault endless =
        ground arith in
      let all =
        seek_exact hm.slots hm.cap key (abs key % hm.cap) shape hh
          (slot_at-seek-ne-endless hm.slots _
            (sym (find_loop-seek hm.cap hm.slots hm.cap key (abs key % hm.cap)) ∙ loop))
          f in
      rw (find_loop-seek, all)
]
