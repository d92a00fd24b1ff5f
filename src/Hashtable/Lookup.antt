-- ===== src/Hashtable/Lookup.antt =====
-- What `hash_get` returns, and what it returns after `hash_set`.
use chat_hub.Base.{
  ℕ, ◌+◌, ◌%◌, ◌<◌, ◌≡◌, sym, ap, ◌∙◌, ◌≢◌, ◌⊎◌, inl, inr, true, Option, none, some, ℤ, eq_ℤ,
  eq_ℤ_iff, abs, if◌then◌else◌, get_elem?, lt_of_get_elem?, get_elem?-set_self, get_elem?-set_ne,
  arith, Bool-cases,
}
use native.Mathlib.Decide.{ℕ_discrete}
use chat_hub.Run.{ok, ◌>>=◌}
use chat_hub.Hashtable.{HashNode, HashMap, hash_get, hash_set, value_or_null}
use chat_hub.Hashtable.Seek.{stops, put_at, seek-stops}
use chat_hub.Hashtable.Content.{HoldsAt}
use chat_hub.Hashtable.Probed.{
  IsProbed, put_at-Grows, seek_key, seek_key-ok, hash_get-seek, hash_set-Stored, put_at-IsProbed,
}

-- no slot holds the key
abbrev pub IsAbsent : HashMap → ℤ → Type 0
IsAbsent hm key = (i : ℕ) (n : HashNode) → HoldsAt hm.slots i n → n.key ≢ key

pub hash_get-eq-slot :
    (hm : HashMap) (key : ℤ) (i : ℕ) (s : Option HashNode)
    → 0 < hm.cap
    → seek_key hm key ≡ ok i
    → get_elem? hm.slots i ≡ some s
    → hash_get hm key ≡ ok (value_or_null s)
hash_get-eq-slot hm key i s pos e there = rw (hash_get-seek hm key pos, e) (ground arith)

-- A key that stands in the table is read with its value.
pub hash_get_held :
    {hm : HashMap} (i : ℕ) (n : HashNode)
    → IsProbed hm
    → HoldsAt hm.slots i n
    → hash_get hm n.key ≡ ok n.value
hash_get_held {hm} i n v held = hash_get-eq-slot hm n.key i (some n) v.pos (v.reach i n held) held

-- A key that does not is read as NULL, if the table is not full.
pub hash_get_absent :
    {hm : HashMap} (key : ℤ)
    → IsProbed hm
    → hm.size < hm.cap
    → IsAbsent hm key
    → hash_get hm key ≡ ok 0
hash_get_absent {hm} key v room absent =
    let (i, e) = seek_key-ok key v room in
    let (s, there, stop) = seek-stops hm.cap hm.slots hm.cap key (abs key % hm.cap) i e in
    stopped_empty i s e there stop
  where
    stopped_empty :
        (i : ℕ) (s : Option HashNode)
        → seek_key hm key ≡ ok i
        → get_elem? hm.slots i ≡ some s
        → stops key s ≡ true
        → hash_get hm key ≡ ok 0
    stopped_empty i none e there stop = hash_get-eq-slot hm key i none v.pos e there
    stopped_empty i (some n) e there stop = absurd (absent i n there ((eq_ℤ_iff n.key key).0 stop))

-- in one of the two ways
pub held_or_IsAbsent :
    {hm : HashMap} (key : ℤ)
    → IsProbed hm
    → hm.size < hm.cap
    → ((i : ℕ) × (n : HashNode) × HoldsAt hm.slots i n × (n.key ≡ key)) ⊎ IsAbsent hm key
held_or_IsAbsent {hm} key v room =
    let (i, e) = seek_key-ok key v room in
    let (s, there, stop) = seek-stops hm.cap hm.slots hm.cap key (abs key % hm.cap) i e in
    by_slot i s e there stop
  where
    by_slot :
        (i : ℕ) (s : Option HashNode)
        → seek_key hm key ≡ ok i
        → get_elem? hm.slots i ≡ some s
        → stops key s ≡ true
        → ((i : ℕ) × (n : HashNode) × HoldsAt hm.slots i n × (n.key ≡ key)) ⊎ IsAbsent hm key
    by_slot i (some n) e there stop = inl (i, n, there, (eq_ℤ_iff n.key key).0 stop)
    by_slot i none e there stop = inr λ j n held p.
        let at_j : seek_key hm key ≡ ok j = rw (← p) (v.reach j n held) in
        let same : i ≡ j = ground arith in ground (arith, ap (get_elem? hm.slots) same)

-- `hm'` is `hm` with the node `n0` written at slot `i`, over a node of the same key or none.
record Written (hm hm' : HashMap) (i : ℕ) (n0 : HashNode) : Type 0 where
  held : HoldsAt hm'.slots i n0
  others : (j : ℕ) → i ≢ j → get_elem? hm'.slots j ≡ get_elem? hm.slots j
  same_key : (n : HashNode) → HoldsAt hm.slots i n → n.key ≡ n0.key

module _ {hm hm' : HashMap} {i : ℕ} {n0 : HashNode} (w : Written hm hm' i n0) (q : ℤ) where
  written-ne : (j : ℕ) (m : HashNode) → q ≢ n0.key → HoldsAt hm.slots j m → m.key ≡ q → i ≢ j
  written-ne j m ne h k p =
      let moved : HoldsAt hm.slots i m = ap (get_elem? hm.slots) p ∙ h in
      ne (sym k ∙ w.same_key m moved)

  written-IsAbsent : q ≢ n0.key → IsAbsent hm q → IsAbsent hm' q
  written-IsAbsent ne absent j n held k = elim (ℕ_discrete i j) [
    | yes p ↦
        let same : some (some n0) ≡ some (some n) =
          sym w.held ∙ (ap (get_elem? hm'.slots) p ∙ held) in
        let keys : n0 ≡ n = ground arith in ne (sym k ∙ sym (ap (λ (x : HashNode). x.key) keys))
    | no d ↦ absent j n (sym (w.others j d) ∙ held) k
  ]

  written_lookup :
      IsProbed hm
      → IsProbed hm'
      → hm.size < hm.cap
      → hm'.size < hm'.cap
      → hash_get hm' q ≡ (if eq_ℤ q n0.key then ok n0.value else hash_get hm q)
  written_lookup v v' room room' = elim (Bool-cases (eq_ℤ q n0.key)) [
    | inl p ↦ rw p (ap (hash_get hm') ((eq_ℤ_iff q n0.key).0 p) ∙ hash_get_held i n0 v' w.held)
    | inr p ↦
        let ne : q ≢ n0.key = λ e. ground (arith, eq_ℤ_iff q n0.key) in
        rw p (elim (held_or_IsAbsent q v room) [
          | inl (j, m, h, k) ↦
              let d = written-ne j m ne h k in
              let h' : HoldsAt hm'.slots j m = w.others j d ∙ h in
              ap (hash_get hm') (sym k)
              ∙ (hash_get_held j m v' h' ∙ (sym (hash_get_held j m v h) ∙ ap (hash_get hm) k))
          | inr absent ↦
              hash_get_absent q v' room' (written-IsAbsent ne absent)
              ∙ sym (hash_get_absent q v room absent)
        ])
  ]

put_at-Written :
    (hm : HashMap) (key : ℤ) (value i : ℕ) (s : Option HashNode)
    → get_elem? hm.slots i ≡ some s
    → stops key s ≡ true
    → Written hm (put_at hm key value i s) i (record { key = key; value = value })
put_at-Written hm key value i none there stop = record {
  held = get_elem?-set_self hm.slots i _ (lt_of_get_elem? hm.slots i none there);
  others = λ j ne. get_elem?-set_ne hm.slots i j _ ne;
  same_key = λ n h. ground arith;
}
put_at-Written hm key value i (some n) there stop = record {
  held =
      get_elem?-set_self hm.slots i _ (lt_of_get_elem? hm.slots i (some n) there)
      ∙ ap (λ k. some (some (record { key = k; value = value }))) ((eq_ℤ_iff n.key key).0 stop);
  others = λ j ne. get_elem?-set_ne hm.slots i j _ ne;
  same_key = λ m h. ground (arith, eq_ℤ_iff n.key key);
}

-- On a table that meets the invariant of probing (which `hash_delete` can break) and has two empty slots, `hash_set` returns a table in which
-- `hash_get` of the key is the value and `hash_get` of every other key is what it was.
pub hash_get-hash_set :
    {hm : HashMap} (key : ℤ) (value : ℕ) (q : ℤ)
    → IsProbed hm
    → hm.size + 1 < hm.cap
    → (hash_set hm key value >>= λ hm'. hash_get hm' q)
      ≡ (if eq_ℤ q key then ok value else hash_get hm q)
hash_get-hash_set {hm} key value q v room =
    let w = hash_set-Stored key value v (omega arith) in
    let v' = put_at-IsProbed key value w.index w.slot v w.sought w.there w.stop in
    let g = put_at-Grows key value w.index w.slot v' in
    rw w.run (
      written_lookup (put_at-Written hm key value w.index w.slot w.there w.stop) q v v'
        (omega arith) (omega (arith, g.one_more, g.same_cap)))
