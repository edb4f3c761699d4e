-- ===== src/Channels/Registry/Laws.antt =====
-- What the loops of the registry do to each channel (graphengine/channels/base.go).
use harness_go.Base.{
  String, ◌≡◌, refl, ◌≢◌, Bool, true, false, Option, none, some, List, [], ◌∷◌, arith, ◌==◌, eq_iff,
  Bool-cases, Option-cases, ◌⊎◌, sym, ap, elem-keys, ◌∙◌, inl, inr, Dict, lookup, insert, keys,
  elem, Distinct, lookup-insert,
}
use harness_go.Value.{Value}
use harness_go.Errors.{Err, channel_not_found, is_empty_channel_error, Result, ok, err}
use harness_go.Channels.Plain
use harness_go.Channels.Plain.{Plain}
use harness_go.Channels.Channel
use harness_go.Channels.Channel.{Channel}
use harness_go.Channels.Registry.{Registry, update_one, update_channels, get_one, get_values}

update_one-frame :
    (name k : String) (u : Channel × Result Bool) (rest : Registry → Registry × Option Err)
    (r : Registry) (ih : (r' : Registry) → lookup k (rest r').0 ≡ lookup k r')
    → (name == k) ≡ false
    → lookup k (update_one name u rest r).0 ≡ lookup k r
update_one-frame name k (c, ok b) rest r ih h =
    ground (arith, ih (insert name c r), lookup-insert name k c r)
update_one-frame name k (c, err e) rest r ih h = ground (arith, lookup-insert name k c r)

-- A channel that no write names keeps its state, also when the loop ends with an error.
pub update_channels_frame :
    (writes : Dict (List Value)) (r : Registry) (k : String)
    → elem k (keys writes) ≡ false
    → lookup k (update_channels writes r).0 ≡ lookup k r
unfolding update_channels keys elem
update_channels_frame [] r k h = refl
update_channels_frame ((j, vs) ∷ writes) r k h = elim (Option-cases (lookup j r)) [
  | inl e ↦ rw e refl
  | inr (c, e) ↦ rw e (
      update_one-frame j k (Channel.update c vs) (λ r'. update_channels writes r') r
        (λ r'. update_channels_frame writes r' k (ground arith)) (ground arith))
]

-- the state in which each named channel is left by its own update, if that succeeds
abbrev pub updated : Channel → List Value → Channel
updated c vs = (Channel.update c vs).0

update_one-ok :
    (name : String) (u : Channel × Result Bool) (rest : Registry → Registry × Option Err)
    (r : Registry)
    → (update_one name u rest r).1 ≡ none
    → (update_one name u rest r) ≡ rest (insert name u.0 r)
update_one-ok name (c, ok b) rest r h = refl
update_one-ok name (c, err e) rest r h = cc

module _ (j : String) (us : List Value) (writes : Dict (List Value)) (r : Registry) where
  update_channels-found :
      (c : Channel)
      → lookup j r ≡ some c
      → (update_channels ((j, us) ∷ writes) r).1 ≡ none
      → update_channels ((j, us) ∷ writes) r ≡ update_channels writes (insert j (updated c us) r)
  unfolding update_channels
  update_channels-found c e h =
      rw e (update_one-ok j (Channel.update c us) (λ r'. update_channels writes r') r (rw e at h))

  update_channels-absent : lookup j r ≡ none → (update_channels ((j, us) ∷ writes) r).1 ≢ none
  unfolding update_channels
  update_channels-absent e h = let bad : some (channel_not_found j) ≡ none = rw e at h in cc

-- When the loop reports no error, every named channel was in the registry and has been updated
-- with its values, each once.
pub update_channels_all :
    (writes : Dict (List Value)) (r : Registry) (k : String) (vs : List Value)
    → Distinct (keys writes)
    → (update_channels writes r).1 ≡ none
    → lookup k writes ≡ some vs
    → (c : Channel) × (lookup k r ≡ some c)
      × (lookup k (update_channels writes r).0 ≡ some (updated c vs))
unfolding keys lookup elem
update_channels_all [] r k vs d h m = cc
update_channels_all ((j, us) ∷ writes) r k vs d h m = elim (Option-cases (lookup j r)) [
  | inl e ↦ absurd (update_channels-absent j us writes r e h)
  | inr (c, e) ↦
      let step = update_channels-found j us writes r c e h in
      let done : (update_channels writes (insert j (updated c us) r)).1 ≡ none = rw step at h in
      elim (Bool-cases (j == k)) [
        | inl same ↦ (
          c,
          ground (arith, eq_iff j k),
          rw step (
              rw
                (update_channels_frame writes (insert j (updated c us) r) k
                  (ground (arith, d.0, eq_iff j k)))
                (ground (arith, eq_iff j k, lookup-insert j k (updated c us) r))),
        )
        | inr other ↦
            let (c', found, left) =
              update_channels_all writes (insert j (updated c us) r) k vs d.1 done (ground arith) in
            (c', ground (arith, lookup-insert j k (updated c us) r), rw step left)
      ]
]

abbrev pub value_of : Result Value → Option Value
value_of (ok v) = some v
value_of (err e) = none

-- what a read of one channel gives
abbrev pub read : Option Channel → Option Value
read none = none
read (some c) = value_of (Channel.get c).1

get-empty_only : (p : Plain) (e : Err) → (Plain.get p).1 ≡ err e → is_empty_channel_error e ≡ true
unfolding Plain.get
get-empty_only (Plain.last c) e h = ground arith
get-empty_only (Plain.any c) e h = ground arith
get-empty_only (Plain.ephemeral c) e h = ground arith
get-empty_only (Plain.untracked c) e h = ground arith
get-empty_only (Plain.topic c) e h = ground arith
get-empty_only (Plain.barrier c) e h = ground arith
get-empty_only (Plain.barrier_finish c) e h = ground arith
get-empty_only (Plain.last_finish c) e h = ground arith
get-empty_only (Plain.aggregate c) e h = ground arith

Result-cases : {A : Type 0} (r : Result A) → ((a : A) × (r ≡ ok a)) ⊎ ((e : Err) × (r ≡ err e))
Result-cases (ok a) = inl (a, refl)
Result-cases (err e) = inr (e, refl)

channel-get-empty_only :
    (c : Channel) (e : Err) → (Channel.get c).1 ≡ err e → is_empty_channel_error e ≡ true
unfolding Channel.get
channel-get-empty_only c e h = get-empty_only c.plain e h

get_one-ok :
    (name : String) (g : Channel × Result Value) (rest : Registry × Result (Dict Value))
    (unread : Registry) (v : Value) (vs : Dict Value)
    → g.1 ≡ ok v
    → rest.1 ≡ ok vs
    → (get_one name g rest unread).1 ≡ ok ((name, v) ∷ vs)
get_one-ok name (c, ok w) (r, ok ws) unread v vs g h = ground arith
get_one-ok name (c, ok w) (r, err e) unread v vs g h = cc
get_one-ok name (c, err e) rest unread v vs g h = cc

get_one-empty :
    (name : String) (g : Channel × Result Value) (rest : Registry × Result (Dict Value))
    (unread : Registry) (e : Err)
    → g.1 ≡ err e
    → is_empty_channel_error e ≡ true
    → (get_one name g rest unread).1 ≡ rest.1
get_one-empty name (c, ok w) rest unread e g h = cc
get_one-empty name (c, err e') rest unread e g h = ground arith

-- The values of a registry can always be read, since the only error of a channel's Get is that of
-- an empty channel; under each name stands what the channel's Get gives, if it gives a value.
pub get_values-lookup :
    (r : Registry) (k : String)
    → Distinct (keys r)
    → (vs : Dict Value) × ((get_values r).1 ≡ ok vs) × (lookup k vs ≡ read (lookup k r))
unfolding get_values keys lookup elem
get_values-lookup [] k d = ([], refl, refl)
get_values-lookup ((name, c) ∷ r) k d =
    let (vs, all, at_k) = get_values-lookup r k d.1 in
    elim (Result-cases (Channel.get c).1) [
      | inl (v, e) ↦ (
        (name, v) ∷ vs,
        get_one-ok name (Channel.get c) (get_values r) r v vs e all,
        elim (Bool-cases (name == k)) [
          | inl same ↦ rw same (sym (ap value_of e))
          | inr other ↦ rw other at_k
        ],
      )
      | inr (e, h) ↦ (
        vs,
        get_one-empty name (Channel.get c) (get_values r) r e h (channel-get-empty_only c e h)
            ∙ all,
        elim (Bool-cases (name == k)) [
          | inl same ↦ rw same (at_k ∙ ap read (absent same) ∙ sym (ap value_of h))
          | inr other ↦ rw other at_k
        ],
      )
    ]
  where
    absent : (name == k) ≡ true → lookup k r ≡ none
    absent same = ground (arith, elem-keys k r, d.0, eq_iff name k)
