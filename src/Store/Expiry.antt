-- ===== src/Store/Expiry.antt =====
-- What becomes of a key whose time to live has passed (graphengine/store/memory.go).
use harness_go.Base.{
  ℕ, ◌≤◌, ◌<◌, String, ◌≡◌, ◌≢◌, refl, ap, ◌∙◌, true, false, none, some, List, [], ◌∷◌, arith, Dict,
  lookup, length, ltb, split_at, lookup-remove, eq_refl,
}
use harness_go.Value.{Value}
use harness_go.Errors.{ok}
use harness_go.Clock.{in_time}
use harness_go.Store.{InMemoryStore, get, put, ns_key, full_key, copied, read}
use harness_go.Store.Sweep.{within, get-read, read-within, drop_parts, expire, sweep, sweep_entries}

out_of_time : (t e : ℕ) → e ≤ t → in_time t (some e) ≡ false
out_of_time t e h = ground arith

read-expired :
    (t e : ℕ) (s : InMemoryStore) (ns key : String)
    → lookup (full_key ns key) s.ttl ≡ some e
    → e ≤ t
    → read t s ns key ≡ none
read-expired t e s ns key h le = rw (read-within, h, out_of_time t e le) refl

put-ttl :
    (s : InMemoryStore) (namespace : List String) (key : String) (value : Dict Value)
    → ((put s namespace key value).0.ttl ≡ s.ttl)
      × ((put s namespace key value).0.closed ≡ s.closed)
unfolding put
put-ttl s namespace key value = ground arith

-- Put does not renew a key: what is put for a key whose time to live has passed is not found.
pub expired_put_lost :
    (t e : ℕ) (s : InMemoryStore) (namespace : List String) (key : String) (value : Dict Value)
    → s.closed ≡ false
    → lookup (full_key (ns_key namespace) key) s.ttl ≡ some e
    → e ≤ t
    → get t (put s namespace key value).0 namespace key ≡ ok none
expired_put_lost t e s namespace key value is_open h le =
    let same = put-ttl s namespace key value in
    let after = (put s namespace key value).0 in
    let left : lookup (full_key (ns_key namespace) key) after.ttl ≡ some e =
      ap (λ m. lookup (full_key (ns_key namespace) key) m) same.0 ∙ h in
    get-read t after namespace key (same.1 ∙ is_open)
    ∙ ap ok (read-expired t e after (ns_key namespace) key left le)

drop_parts-other :
    (ws : List String) (m : Dict (Dict (Dict Value))) → length ws ≢ 2 → drop_parts ws m ≡ m
drop_parts-other [] m h = refl
drop_parts-other (a ∷ []) m h = refl
drop_parts-other (a ∷ b ∷ []) m h = absurd (h refl)
drop_parts-other (a ∷ b ∷ c ∷ ws) m h = refl

read-expire_returns :
    (t : ℕ) (s : InMemoryStore) (ns key : String)
    → length (split_at ":" (full_key ns key)) ≢ 2
    → read t (expire (full_key ns key) s) ns key ≡ copied (within (lookup ns s.data_) key)
unfolding expire
read-expire_returns t s ns key w =
    rw
      (
        read-within,
        lookup-remove,
        eq_refl,
        drop_parts-other (split_at ":" (full_key ns key)) s.data_ w,
      )
      refl

sweep-one :
    (now e : ℕ) (full : String) (s : InMemoryStore)
    → s.ttl ≡ (full, e) ∷ []
    → e < now
    → sweep now s ≡ expire full s
unfolding sweep sweep_entries
sweep-one now e full s h lt = let passed : ltb e now ≡ true = ground arith in rw (h, passed) refl

closed-expire : (full : String) (s : InMemoryStore) → (expire full s).closed ≡ s.closed
unfolding expire
closed-expire full s = refl

lookup-only : (k : String) (e : ℕ) (m : Dict ℕ) → m ≡ (k, e) ∷ [] → lookup k m ≡ some e
unfolding lookup
lookup-only k e m h = ground (arith, eq_refl k)

-- A value that has expired comes back with the sweep, if its namespace or key has a colon: it is
-- not found before the sweep, and is found after it, where its time to live is the only one.
pub expired_key_returns :
    (now e : ℕ) (s : InMemoryStore) (namespace : List String) (key : String)
    → s.closed ≡ false
    → s.ttl ≡ (full_key (ns_key namespace) key, e) ∷ []
    → e < now
    → length (split_at ":" (full_key (ns_key namespace) key)) ≢ 2
    → (get now s namespace key ≡ ok none)
      × (get now (sweep now s) namespace key
          ≡ ok (copied (within (lookup (ns_key namespace) s.data_) key)))
expired_key_returns now e s namespace key is_open h lt w = (
  get-read now s namespace key is_open
      ∙ ap ok (
          read-expired now e s (ns_key namespace) key
            (lookup-only (full_key (ns_key namespace) key) e s.ttl h) (omega arith)),
  ap (λ x. get now x namespace key) (sweep-one now e (full_key (ns_key namespace) key) s h lt)
      ∙ get-read now (expire (full_key (ns_key namespace) key) s) namespace key
          (closed-expire (full_key (ns_key namespace) key) s ∙ is_open)
      ∙ ap ok (read-expire_returns now s (ns_key namespace) key w),
)
