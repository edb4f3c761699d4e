-- ===== src/Channels/Barrier/Rounds.antt =====
-- A barrier from its construction on: any batches of updates, in any order, with faults or
-- without (graphengine/channels/barrier.go).
use harness_go.Base.{
  String, ◌≡◌, refl, ◌↔◌, ◌⊎◌, inl, inr, Bool, true, false, ◌||◌, List, [], ◌∷◌, ◌++◌, sym, ◌∙◌,
  arith, Dict, lookup, keys, elem, elem-append, Distinct, Subset,
}
use harness_go.Value.{Value}
use harness_go.Channels.Barrier.{
  NamedBarrierValue, flag, new_named_barrier_value, name_set, is_available, update, consume,
}
use harness_go.Channels.Barrier.Sets.{
  IsSeenSet, match_iff, accepted, receive-IsSeenSet, receive-keys, name_set-keys, name_set-Distinct,
}

-- What holds of a barrier between two calls.
pub record IsValid (c : NamedBarrierValue) : Type 0 where
  pub distinct : Distinct (keys c.names)
  pub seen_set : IsSeenSet c.names c.seen

pub new-IsValid :
    (typ : Value) (wait_for : List String) → IsValid (new_named_barrier_value typ wait_for)
unfolding new_named_barrier_value elem keys flag lookup
new-IsValid typ wait_for = record {
  distinct = name_set-Distinct wait_for [] tt;
  seen_set = record { distinct = tt; awaited = λ k m. cc; set = λ k. refl };
}

update-IsValid : (c : NamedBarrierValue) (vs : List Value) → IsValid c → IsValid (update c vs).0
unfolding update
update-IsValid c [] v = v
update-IsValid c (w ∷ vs) v = record {
  distinct = v.distinct;
  seen_set = receive-IsSeenSet c.names (w ∷ vs) c.seen false v.seen_set;
}

names-update : (c : NamedBarrierValue) (vs : List Value) → (update c vs).0.names ≡ c.names
unfolding update
names-update c [] = refl
names-update c (w ∷ vs) = refl

elem-seen-update :
    (c : NamedBarrierValue) (vs : List Value) (k : String)
    → IsValid c
    → elem k (keys (update c vs).0.seen) ≡ (elem k (keys c.seen) || elem k (accepted c.names vs))
unfolding update elem
elem-seen-update c [] k v = ground arith
elem-seen-update c (w ∷ vs) k v = receive-keys c.names (w ∷ vs) c.seen false k v.seen_set

-- the batches of a round, one call of Update each
abbrev pub updates : NamedBarrierValue → List (List Value) → NamedBarrierValue
updates c [] = c
updates c (vs ∷ batches) = updates (update c vs).0 batches

-- the names that the batches add
abbrev pub received : Dict Bool → List (List Value) → List String
received names [] = []
received names (vs ∷ batches) = accepted names vs ++ received names batches

names-updates :
    (c : NamedBarrierValue) (batches : List (List Value)) → (updates c batches).names ≡ c.names
names-updates c [] = refl
names-updates c (vs ∷ batches) = names-updates (update c vs).0 batches ∙ names-update c vs

pub updates-IsValid :
    (c : NamedBarrierValue) (batches : List (List Value)) → IsValid c → IsValid (updates c batches)
updates-IsValid c [] v = v
updates-IsValid c (vs ∷ batches) v = updates-IsValid (update c vs).0 batches (update-IsValid c vs v)

elem-seen-updates :
    (c : NamedBarrierValue) (batches : List (List Value)) (k : String)
    → IsValid c
    → elem k (keys (updates c batches).seen)
      ≡ (elem k (keys c.seen) || elem k (received c.names batches))
unfolding elem
elem-seen-updates c [] k v = ground arith
elem-seen-updates c (vs ∷ batches) k v = ground (
  arith,
  elem-seen-updates (update c vs).0 batches k (update-IsValid c vs v),
  elem-seen-update c vs k v,
  names-update c vs,
  elem-append k (accepted c.names vs) (received c.names batches),
)

-- Between two calls a barrier is available exactly when every awaited name has been seen.
pub available_iff :
    (c : NamedBarrierValue)
    → IsValid c
    → (is_available c ≡ true) ↔ Subset (keys c.names) (keys c.seen)
unfolding is_available
available_iff c v = match_iff c.names c.seen v.distinct v.seen_set

module _ (typ : Value) (wait_for : List String) (batches : List (List Value)) where
  abbrev started : NamedBarrierValue
  started = new_named_barrier_value typ wait_for

  names-started : (k : String) → elem k (keys (updates started batches).names) ≡ elem k wait_for
  unfolding new_named_barrier_value keys elem
  names-started k = rw (names-updates started batches) (name_set-keys wait_for [] k)

  seen-started :
      (k : String)
      → elem k (keys (updates started batches).seen)
        ≡ elem k (received (name_set wait_for []) batches)
  unfolding new_named_barrier_value keys elem
  seen-started k = elem-seen-updates started batches k (new-IsValid typ wait_for)

  -- A barrier that is built for `wait_for` and then updated by any batches of values is available
  -- exactly when every awaited name is among the names that the batches added, each batch up to
  -- its first fault (a value that is no string, or a name that is not awaited).
  pub round-available :
      (is_available (updates started batches) ≡ true)
      ↔ Subset wait_for (received (name_set wait_for []) batches)
  round-available =
      let iff =
        available_iff (updates started batches)
          (updates-IsValid started batches (new-IsValid typ wait_for)) in
      (
        λ a k h. sym (seen-started k) ∙ iff.0 a k (names-started k ∙ h),
        λ s. iff.1 (λ k h. seen-started k ∙ s k (sym (names-started k) ∙ h)),
      )

-- A round is consumed at most once: a second call of Consume finds nothing and changes nothing.
pub consume_once : (c : NamedBarrierValue) → consume (consume c).0 ≡ ((consume c).0, false)
unfolding consume
consume_once c = ground arith

consume_cases :
    (c : NamedBarrierValue)
    → (consume c ≡ (c, false)) ⊎ (consume c ≡ (record c { seen = [] }, true))
unfolding consume
consume_cases c = ground arith

consumed-seen : (c : NamedBarrierValue) → (consume c).1 ≡ true → (consume c).0.seen ≡ []
unfolding consume
consumed-seen c h = ground arith

consumed-names : (c : NamedBarrierValue) → (consume c).0.names ≡ c.names
unfolding consume
consumed-names c = ground arith

consume-IsValid : (c : NamedBarrierValue) → IsValid c → IsValid (consume c).0
unfolding keys elem flag lookup
consume-IsValid c v = elim (consume_cases c) [
  | inl same ↦ rw same v
  | inr e ↦ rw e (record {
    distinct = v.distinct;
    seen_set = record { distinct = tt; awaited = λ k m. cc; set = λ k. refl };
  })
]

module _ (c : NamedBarrierValue) (batches : List (List Value)) (v : IsValid c) where
  abbrev again : NamedBarrierValue
  again = updates (consume c).0 batches

  names-again : again.names ≡ c.names
  names-again = names-updates (consume c).0 batches ∙ consumed-names c

  seen-again :
      (consume c).1 ≡ true
      → (k : String) → elem k (keys again.seen) ≡ elem k (received c.names batches)
  unfolding keys elem
  seen-again h k =
      elem-seen-updates (consume c).0 batches k (consume-IsValid c v)
      ∙ rw (consumed-seen c h, consumed-names c) refl

  -- After a round of a valid barrier has been consumed, the next one needs every awaited name
  -- anew: the barrier is available exactly when the batches since then have added them all.
  pub next_round :
      (consume c).1 ≡ true
      → (is_available (updates (consume c).0 batches) ≡ true)
        ↔ Subset (keys c.names) (received c.names batches)
  next_round h =
      let iff = available_iff again (updates-IsValid (consume c).0 batches (consume-IsValid c v)) in
      (
        λ a k m. sym (seen-again h k) ∙ iff.0 a k (rw names-again m),
        λ s. iff.1 (λ k m. seen-again h k ∙ s k (rw names-again at m)),
      )
