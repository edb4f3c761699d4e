-- ===== src/Store/Sweep.antt =====
-- graphengine/store/memory.go, cleanupExpired: one tick of its ticker, and what Get finds after it.
use harness_go.Base.{
  ℕ, ◌≤◌, ◌<◌, String, ◌≡◌, ◌&&◌, refl, sym, ap, ◌∙◌, Bool, true, false, Option, none, some, List,
  [], ◌∷◌, arith, Dict, lookup, insert, remove, keys, elem, Distinct, All, length, length-append,
  lookup-insert, lookup-remove, ltb, ◌==◌, eq_iff, eq_refl, split_at, join_at, join_at-split_at,
  split_at-append, split_at-single, length-split_at, if◌then◌else◌, Bool-cases, inl, inr,
  Option-cases,
}
use harness_go.Value.{Value}
use harness_go.Errors.{ok}
use harness_go.Clock.{in_time}
use harness_go.Store.{InMemoryStore, get, ns_key, check_ttl, full_key, read, copied}

abbrev empty {ℓ} : {A : Type ℓ} → List A → Bool
empty [] = true
empty (x ∷ xs) = false

-- `delete(nsData, key)`, and the namespace if nothing is left of it
abbrev drop_in :
    Option (Dict (Dict Value))
    → String
    → String
    → Dict (Dict (Dict Value))
    → Dict (Dict (Dict Value))
drop_in none ns key m = m
drop_in (some d) ns key m = if empty (remove key d) then remove ns m else insert ns (remove key d) m

unfoldable pub drop_value : String → String → Dict (Dict (Dict Value)) → Dict (Dict (Dict Value))
unfolding lookup insert remove
drop_value ns key m = drop_in (lookup ns m) ns key m

-- the two parts of the full key, if it has two
abbrev pub drop_parts : List String → Dict (Dict (Dict Value)) → Dict (Dict (Dict Value))
drop_parts (ns ∷ key ∷ []) m = drop_value ns key m
drop_parts _ m = m

-- the loop over the indexes, which looks for the full key among their keys
unfoldable pub drop_index : String → Dict (Dict (List Value)) → Dict (Dict (List Value))
unfolding remove
drop_index full [] = []
drop_index full ((ns, m) ∷ indexes) =
    let rest = drop_index full indexes in
    if empty (remove full m) then rest else (ns, remove full m) ∷ rest

-- what becomes of an expired full key
unfoldable pub expire : String → InMemoryStore → InMemoryStore
unfolding split_at drop_value drop_index remove
expire full s = record s {
  data_ = drop_parts (split_at ":" full) s.data_;
  ttl = remove full s.ttl;
  indexes = drop_index full s.indexes;
}

-- the loop over the times to live; `now.After(expiry)`
unfoldable pub sweep_entries : ℕ → Dict ℕ → InMemoryStore → InMemoryStore
unfolding expire
sweep_entries now [] s = s
sweep_entries now ((full, expiry) ∷ entries) s =
    let dropped = sweep_entries now entries (expire full s) in
    let kept = sweep_entries now entries s in if ltb expiry now then dropped else kept

-- one tick of cleanupExpired
unfoldable pub sweep : ℕ → InMemoryStore → InMemoryStore
unfolding sweep_entries
sweep now s = sweep_entries now s.ttl s

-- what is stored for a key, whether it has expired or not
abbrev pub within {ℓ} : {V : Type ℓ} → Option (Dict V) → String → Option V
within none key = none
within (some m) key = lookup key m

empty-lookup : (key : String) (d : Dict (Dict Value)) → empty d ≡ true → lookup key d ≡ none
unfolding lookup
empty-lookup key [] h = refl
empty-lookup key (x ∷ d) h = ground arith

within-drop_value :
    (ns key other_ns other : String) (m : Dict (Dict (Dict Value)))
    → within (lookup other_ns (drop_value ns key m)) other
      ≡ (if ns == other_ns && key == other then none else within (lookup other_ns m) other)
unfolding drop_value
within-drop_value ns key other_ns other m = elim (Option-cases (lookup ns m)) [
  | inl absent ↦ ground (arith, eq_iff ns other_ns)
  | inr (d, found) ↦ rw found (elim (Bool-cases (empty (remove key d))) [
    | inl gone ↦
        rw (gone, lookup-remove ns other_ns m)
          (ground (
            arith,
            eq_iff ns other_ns,
            lookup-remove key other d,
            empty-lookup other (remove key d) gone,
          ))
    | inr left ↦
        rw (left, lookup-insert ns other_ns (remove key d) m)
          (ground (arith, eq_iff ns other_ns, lookup-remove key other d))
  ])
]

pub read-within :
    (t : ℕ) (s : InMemoryStore) (ns key : String)
    → read t s ns key ≡ (
        if in_time t (lookup (full_key ns key) s.ttl)
        then copied (within (lookup ns s.data_) key)
        else none)
unfolding read check_ttl
read-within t s ns key = ground arith

pub get-read :
    (t : ℕ) (s : InMemoryStore) (namespace : List String) (key : String)
    → s.closed ≡ false
    → get t s namespace key ≡ ok (read t s (ns_key namespace) key)
unfolding get
get-read t s namespace key h = ground arith

-- A full key of two parts is the one of those two parts.
abbrev TwoParts : String → Type 0
TwoParts full = length (split_at ":" full) ≡ 2

two : (ws : List String) → length ws ≡ 2 → (a : String) × (b : String) × (ws ≡ a ∷ b ∷ [])
two [] h = absurd (omega arith)
two (a ∷ []) h = absurd (omega arith)
two (a ∷ b ∷ []) h = (a, b, refl)
two (a ∷ b ∷ c ∷ ws) h = absurd (omega arith)

parts_of :
    (full : String)
    → TwoParts full
    → (a : String) × (b : String) × (split_at ":" full ≡ a ∷ b ∷ []) × (full ≡ full_key a b)
unfolding full_key join_at
parts_of full h =
    let p = two (split_at ":" full) h in
    (p.0, p.1, p.2, sym (join_at-split_at ":" full) ∙ ap (join_at ":") p.2)

parts_of_key :
    (ns key : String) → TwoParts (full_key ns key) → split_at ":" (full_key ns key) ≡ ns ∷ key ∷ []
unfolding full_key
parts_of_key ns key h =
    let cut = split_at-append ":" ns key in
    let sum = length-append (split_at ":" ns) (split_at ":" key) in
    let total = ap length cut in
    let l = length-split_at ":" ns in
    let r = length-split_at ":" key in
    rw (cut, split_at-single ":" ns (omega arith), split_at-single ":" key (omega arith)) refl

-- the expiry of a full key that has passed
Passed : ℕ → InMemoryStore → String → Type 0
Passed now s full = (e : ℕ) × (lookup full s.ttl ≡ some e) × (e < now)

read-expire_self :
    (now t : ℕ) (s : InMemoryStore) (ns key : String) (e : ℕ)
    → now ≤ t
    → lookup (full_key ns key) s.ttl ≡ some e
    → e < now
    → TwoParts (full_key ns key)
    → read t (expire (full_key ns key) s) ns key ≡ read t s ns key
unfolding expire
read-expire_self now t s ns key e le h lt w =
    rw
      (
        read-within t (expire (full_key ns key) s) ns key,
        read-within t s ns key,
        h,
        lookup-remove (full_key ns key) (full_key ns key) s.ttl,
        eq_refl,
        parts_of_key ns key w,
        within-drop_value ns key ns key s.data_,
        eq_refl ns,
        eq_refl key,
      )
      (ground arith)

full_key-differs :
    (full a b ns key : String)
    → full ≡ full_key a b
    → (full == full_key ns key) ≡ false
    → (a == ns && b == key) ≡ false
full_key-differs full a b ns key e ne = elim (Bool-cases (a == ns)) [
  | inr other ↦ rw other refl
  | inl same ↦ elim (Bool-cases (b == key)) [
    | inr other ↦ rw (same, other) refl
    | inl also ↦
        let n = (eq_iff a ns).0 same in
        let k = (eq_iff b key).0 also in
        let f : full ≡ full_key ns key = cc in
        let yes_ = (eq_iff full (full_key ns key)).1 f in absurd (ground (arith, ne, yes_))
  ]
]

read-expire_other :
    (t : ℕ) (s : InMemoryStore) (full ns key : String)
    → (full == full_key ns key) ≡ false
    → TwoParts full
    → read t (expire full s) ns key ≡ read t s ns key
unfolding expire
read-expire_other t s full ns key ne w =
    let p = parts_of full w in
    rw
      (
        read-within t (expire full s) ns key,
        read-within t s ns key,
        lookup-remove full (full_key ns key) s.ttl,
        ne,
        p.2,
        within-drop_value p.0 p.1 ns key s.data_,
        full_key-differs full p.0 p.1 ns key p.3 ne,
      )
      refl

-- A full key that has passed makes no difference to what is read, once it is dropped.
read-expire :
    (now t : ℕ) (s : InMemoryStore) (full ns key : String) (e : ℕ)
    → now ≤ t
    → lookup full s.ttl ≡ some e
    → e < now
    → TwoParts full
    → read t (expire full s) ns key ≡ read t s ns key
read-expire now t s full ns key e le h lt w = elim (Bool-cases (full == full_key ns key)) [
  | inr other ↦ read-expire_other t s full ns key other w
  | inl same ↦
      let f = (eq_iff full (full_key ns key)).0 same in
      rw f (read-expire_self now t s ns key e le (rw f at h) lt (rw f at w))
]

-- Every full key that has expired by `now` has two parts.
abbrev pub Splittable : ℕ → Dict ℕ → Type 0
Splittable now = All (λ p. p.1 < now → TwoParts p.0)

Recorded : InMemoryStore → Dict ℕ → Type 0
Recorded s = All (λ p. lookup p.0 s.ttl ≡ some p.1)

Recorded-expire :
    (full : String) (s : InMemoryStore) (entries : Dict ℕ)
    → elem full (keys entries) ≡ false
    → Recorded s entries
    → Recorded (expire full s) entries
unfolding Recorded expire elem keys
Recorded-expire full s [] f h = tt
Recorded-expire full s ((other, e) ∷ entries) f h = (
  ground (arith, lookup-remove full other s.ttl, eq_iff full other, eq_iff other full, h.0),
  Recorded-expire full s entries (ground arith) h.1,
)

read-sweep_entries :
    (now t : ℕ) (entries : Dict ℕ) (s : InMemoryStore) (ns key : String)
    → now ≤ t
    → Recorded s entries
    → Distinct (keys entries)
    → Splittable now entries
    → read t (sweep_entries now entries s) ns key ≡ read t s ns key
unfolding sweep_entries Recorded keys
read-sweep_entries now t [] s ns key le r d w = refl
read-sweep_entries now t ((full, e) ∷ entries) s ns key le r d w = elim (Bool-cases (ltb e now)) [
  | inl passed ↦ rw passed (
      let lt : e < now = ground arith in
      read-sweep_entries now t entries (expire full s) ns key le
        (Recorded-expire full s entries d.0 r.1) d.1 w.1
      ∙ read-expire now t s full ns key e le r.0 lt (w.0 lt))
  | inr live ↦ rw live (read-sweep_entries now t entries s ns key le r.1 d.1 w.1)
]

abbrev RecordedIn : Dict ℕ → Dict ℕ → Type 0
RecordedIn m = All (λ p. lookup p.0 m ≡ some p.1)

RecordedIn-cons :
    (k : String) (v : ℕ) (m entries : Dict ℕ)
    → elem k (keys entries) ≡ false
    → RecordedIn m entries
    → RecordedIn ((k, v) ∷ m) entries
unfolding lookup elem keys
RecordedIn-cons k v m [] h r = tt
RecordedIn-cons k v m ((j, e) ∷ entries) h r =
    (ground (arith, eq_iff j k, eq_iff k j, r.0), RecordedIn-cons k v m entries (ground arith) r.1)

Distinct-RecordedIn : (m : Dict ℕ) → Distinct (keys m) → RecordedIn m m
unfolding keys lookup
Distinct-RecordedIn [] d = tt
Distinct-RecordedIn ((k, v) ∷ m) d =
    (ground (arith, eq_refl k), RecordedIn-cons k v m m d.0 (Distinct-RecordedIn m d.1))

closed-sweep_entries :
    (now : ℕ) (entries : Dict ℕ) (s : InMemoryStore)
    → (sweep_entries now entries s).closed ≡ s.closed
unfolding sweep_entries expire
closed-sweep_entries now [] s = refl
closed-sweep_entries now ((full, e) ∷ entries) s = elim (Bool-cases (ltb e now)) [
  | inl passed ↦ rw (passed, closed-sweep_entries now entries (expire full s)) refl
  | inr live ↦ rw (live, closed-sweep_entries now entries s) refl
]

-- A sweep changes nothing of what Get finds from then on, if every full key that has expired splits
-- into two parts at its colons and no full key has two times to live.
pub get-sweep :
    (now t : ℕ) (s : InMemoryStore) (namespace : List String) (key : String)
    → now ≤ t
    → Distinct (keys s.ttl)
    → Splittable now s.ttl
    → get t (sweep now s) namespace key ≡ get t s namespace key
unfolding get sweep Recorded
get-sweep now t s namespace key le d w =
    rw
      (
        closed-sweep_entries now s.ttl s,
        read-sweep_entries now t s.ttl s (ns_key namespace) key le (Distinct-RecordedIn s.ttl d) d
            w,
      )
      refl
