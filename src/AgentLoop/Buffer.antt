-- ===== src/AgentLoop/Buffer.antt =====
-- agentcore/agent_loop_buffer.go: turnBuffer. A method that waits is a step that is possible only
-- when its wait is over; the lock makes each method one step.
use harness_go.Base.{
  ◌≡◌, refl, sym, ap, ◌∙◌, Bool, true, false, not, ◌&&◌, ◌⊎◌, inl, inr, Option, none, some, List,
  [], ◌∷◌, ◌++◌, arith, is_some, if◌then◌else◌, Bool-cases, some_inj,
}
use mathlib.Core.List.{append-nil, append_assoc}

pub record TurnBuffer {ℓ} (T : Type ℓ) : Type ℓ where
  pub buf : List T
  pub closed : Bool
  pub woken : Bool

none-some {ℓ} : {A : Type ℓ} {x : A} → none ≡ some x → ⊥
none-some h = cc

module _ {ℓ} {T : Type ℓ} where
  unfoldable pub new_turn_buffer : TurnBuffer T
  new_turn_buffer = record { buf = []; closed = false; woken = false }

  -- Send; none is the panic on a closed buffer.
  unfoldable pub send : TurnBuffer T → T → Option (TurnBuffer T)
  send b v = if b.closed then none else some (record b { buf = b.buf ++ v ∷ [] })

  -- TrySend
  unfoldable pub try_send : TurnBuffer T → T → TurnBuffer T × Bool
  try_send b v = if b.closed then (b, false) else (record b { buf = b.buf ++ v ∷ [] }, true)

  abbrev received : TurnBuffer T → List T → TurnBuffer T × Option T
  received b [] = (record b { woken = false }, none)
  received b (v ∷ vs) = (record b { woken = false; buf = vs }, some v)

  abbrev empty : List T → Bool
  empty [] = true
  empty (v ∷ vs) = false

  -- the condition of Receive's loop
  abbrev pub waits : TurnBuffer T → Bool
  waits b = empty b.buf && not b.closed && not b.woken

  -- Receive: none while it waits; then an item, or none of them
  unfoldable pub receive : TurnBuffer T → Option (TurnBuffer T × Option T)
  receive b = if waits b then none else some (received b b.buf)

  -- Close
  unfoldable pub close : TurnBuffer T → TurnBuffer T
  close b = record b { closed = true }

  -- TakeAll
  unfoldable pub take_all : TurnBuffer T → TurnBuffer T × List T
  take_all b = (record b { buf = [] }, b.buf)

  -- PushFront
  unfoldable pub push_front : TurnBuffer T → List T → TurnBuffer T
  push_front b [] = b
  push_front b (v ∷ vs) = record b { buf = (v ∷ vs) ++ b.buf }

  -- Wakeup and ClearWakeup
  unfoldable pub wakeup : TurnBuffer T → TurnBuffer T
  wakeup b = record b { woken = true }

  unfoldable pub clear_wakeup : TurnBuffer T → TurnBuffer T
  clear_wakeup b = record b { woken = false }

  -- The steps of all the goroutines that use the buffer, with the items that go in and come out.
  pub data Step : TurnBuffer T → List T → List T → TurnBuffer T → Type ℓ where
    sent :
        (b : TurnBuffer T) (v : T) → (try_send b v).1 ≡ true → Step b (v ∷ []) [] (try_send b v).0
    refused : (b : TurnBuffer T) (v : T) → (try_send b v).1 ≡ false → Step b [] [] (try_send b v).0
    took : (b c : TurnBuffer T) (v : T) → receive b ≡ some (c, some v) → Step b [] (v ∷ []) c
    nothing : (b c : TurnBuffer T) → receive b ≡ some (c, none) → Step b [] [] c
    drained : (b : TurnBuffer T) → Step b [] (take_all b).1 (take_all b).0
    closes : (b : TurnBuffer T) → Step b [] [] (close b)
    wakes : (b : TurnBuffer T) → Step b [] [] (wakeup b)
    clears : (b : TurnBuffer T) → Step b [] [] (clear_wakeup b)

  -- A run of steps, in any interleaving; what was taken last may be pushed back to the front.
  pub data Run : TurnBuffer T → List T → List T → TurnBuffer T → Type ℓ where
    start : (b : TurnBuffer T) → Run b [] [] b
    next :
        {b c d : TurnBuffer T} {ins outs more gone : List T}
        → Run b ins outs c
        → Step c more gone d
        → Run b (ins ++ more) (outs ++ gone) d
    returned :
        {b c : TurnBuffer T} {ins outs : List T} (vs : List T)
        → Run b ins (outs ++ vs) c
        → Run b ins outs (push_front c vs)

  pub sent_items :
      (b : TurnBuffer T) (v : T) → (try_send b v).1 ≡ true → (try_send b v).0.buf ≡ b.buf ++ v ∷ []
  unfolding try_send
  sent_items b v h = elim (Bool-cases b.closed) [
    | inl shut ↦ absurd (ground arith)
    | inr is_open ↦ rw is_open refl
  ]

  pub refused_items :
      (b : TurnBuffer T) (v : T) → (try_send b v).1 ≡ false → (try_send b v).0.buf ≡ b.buf
  unfolding try_send
  refused_items b v h = elim (Bool-cases b.closed) [
    | inl shut ↦ rw shut refl
    | inr is_open ↦ absurd (ground arith)
  ]

  -- the items that Receive gives, if it gives one, in front of what is left
  abbrev with_item : Option T → List T → List T
  with_item none vs = vs
  with_item (some v) vs = v ∷ vs

  received_items :
      (b : TurnBuffer T) (vs : List T)
      → b.buf ≡ vs
      → with_item (received b vs).1 (received b vs).0.buf ≡ b.buf
  received_items b [] h = refl
  received_items b (v ∷ vs) h = sym h

  receive_items :
      (b c : TurnBuffer T) (o : Option T) → receive b ≡ some (c, o) → with_item o c.buf ≡ b.buf
  unfolding receive
  receive_items b c o h = elim (Bool-cases (waits b)) [
    | inl waiting ↦ absurd (none-some (rw waiting at h))
    | inr ready ↦
        let done : some (received b b.buf) ≡ some (c, o) = rw ready at h in
        sym (ap (λ r. with_item r.1 r.0.buf) (some_inj done)) ∙ received_items b b.buf refl
  ]

  Step-items :
      {b d : TurnBuffer T} {more gone : List T} → Step b more gone d → gone ++ d.buf ≡ b.buf ++ more
  unfolding close wakeup clear_wakeup take_all
  Step-items (sent b v h) = sent_items b v h
  Step-items (refused b v h) = refused_items b v h ∙ sym (append-nil b.buf)
  Step-items (took b c v h) = receive_items b c (some v) h ∙ sym (append-nil b.buf)
  Step-items (nothing b c h) = receive_items b c none h ∙ sym (append-nil b.buf)
  Step-items (drained b) = refl
  Step-items (closes b) = sym (append-nil b.buf)
  Step-items (wakes b) = sym (append-nil b.buf)
  Step-items (clears b) = sym (append-nil b.buf)

  buf-push_front : (b : TurnBuffer T) (vs : List T) → (push_front b vs).buf ≡ vs ++ b.buf
  unfolding push_front
  buf-push_front b [] = refl
  buf-push_front b (v ∷ vs) = refl

  -- Whatever the interleaving of the senders and the receivers, the items come out in the order in
  -- which they went in: those that have come out, followed by those that are left, are those that
  -- were there, followed by those that went in. None is lost, and none comes twice.
  pub Run-items :
      {b d : TurnBuffer T} {ins outs : List T} → Run b ins outs d → outs ++ d.buf ≡ b.buf ++ ins
  Run-items (start b) = sym (append-nil b.buf)
  Run-items
        (next {b = b} {c = c} {d = d} {ins = ins} {outs = outs} {more = more} {gone = gone} r
          step) =
      append_assoc outs gone d.buf
      ∙ ap (λ xs. outs ++ xs) (Step-items step)
      ∙ sym (append_assoc outs c.buf more)
      ∙ ap (λ xs. xs ++ more) (Run-items r)
      ∙ append_assoc b.buf ins more
  Run-items (returned {b = b} {c = c} {ins = ins} {outs = outs} vs r) =
      ap (λ xs. outs ++ xs) (buf-push_front c vs) ∙ sym (append_assoc outs vs c.buf) ∙ Run-items r

  -- Receive waits exactly while the buffer is empty, open and not woken; otherwise it gives the
  -- first item, or none if there is none, and takes the wake-up with it.
  pub receive-cases :
      (b : TurnBuffer T)
      → ((waits b ≡ true) × (receive b ≡ none))
        ⊎ ((waits b ≡ false)
            × (c : TurnBuffer T) × (o : Option T) × (receive b ≡ some (c, o))
            × (c.woken ≡ false)
            × (is_some o ≡ not (empty b.buf)))
  unfolding receive
  receive-cases b = elim (Bool-cases (waits b)) [
    | inl waiting ↦ rw waiting (inl (refl, refl))
    | inr ready ↦ rw ready (
        inr (
          refl,
          (received b b.buf).0,
          (received b b.buf).1,
          refl,
          received_woken b b.buf,
          received_one b b.buf,
        ))
  ]
    where
      received_woken : (x : TurnBuffer T) (vs : List T) → (received x vs).0.woken ≡ false
      received_woken x [] = refl
      received_woken x (v ∷ vs) = refl

      received_one : (x : TurnBuffer T) (vs : List T) → is_some (received x vs).1 ≡ not (empty vs)
      received_one x [] = refl
      received_one x (v ∷ vs) = refl
