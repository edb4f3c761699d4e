-- ===== src/AgentLoop/Push/Accepted.antt =====
-- What becomes of an item that is pushed (agentcore/agent_loop_push.go).
use harness_go.Base.{
  ℕ, suc, List, sym, ◌≡◌, refl, ap, ◌∙◌, Bool, true, false, not, ◌⊎◌, inl, inr, Option, none, some,
  [], ◌∷◌, ◌++◌, arith, if◌then◌else◌, Bool-cases, Option-cases,
}
use harness_go.Clock.{is_positive}
use harness_go.AgentLoop.Buffer
use harness_go.AgentLoop.Buffer.{TurnBuffer, try_send, wakeup, sent_items}
use harness_go.AgentLoop.Preempt.{
  PreemptController, Snapshot, begin_push, end_push, request_preempt, too_late,
}
use harness_go.AgentLoop.{CancelOption}
use harness_go.AgentLoop.Stop.{
  StopConfig, StopController, StopDecision, is_committed, request_stop, request_open, commit,
}
use harness_go.AgentLoop.Push.{
  AgentLoop, PushConfig, PushOptions, with_config, with_strategy, Pushed, append_late, late, ask,
  accept, ended, sending, push_with_config, push_with_strategy, push, stop, stop_config, decided,
  finish_stop_commit,
}

-- A request that does not wait commits the stop, unless it is committed.
request_stop-commits :
    (now : ℕ) (cfg : StopConfig) (c : StopController)
    → c.closed ≡ false
    → is_positive cfg.idle_for ≡ false
    → (request_stop now cfg c).1.commit ≡ not (is_committed c.phase)
unfolding request_stop request_open commit
request_stop-commits now cfg c running soon = ground arith

soon_too :
    (cfg : StopConfig)
    → is_positive cfg.idle_for ≡ false
    → is_positive (stop_config cfg).idle_for ≡ false
soon_too cfg soon = ground arith

not_sent {ℓ} : {T : Type ℓ} (b : TurnBuffer T) (v : T) → b.closed ≡ true → (try_send b v).1 ≡ false
unfolding try_send
not_sent b v shut = ground arith

request_preempt-in_flight :
    {Ctx Tc : Type 0} (now : ℕ) (c : PreemptController Ctx Tc) (target : Snapshot Ctx Tc)
    (ack : Option ℕ) (opts : Option (List CancelOption))
    → (request_preempt now c target ack opts).0.push_in_flight ≡ c.push_in_flight
unfolding request_preempt
request_preempt-in_flight now c target ack opts = elim (Bool-cases (too_late c target)) [
  | inl over ↦ rw over refl
  | inr timely ↦ rw timely refl
]

refused_closed {ℓ} :
    {T : Type ℓ} (b : TurnBuffer T) (v : T) → (try_send b v).1 ≡ false → b.closed ≡ true
unfolding try_send
refused_closed b v h = ground arith

module _ {T Ctx Tc : Type 0} where
  -- The item is behind those of the buffer, or behind the late ones, and nowhere else.
  abbrev pub Placed : AgentLoop T Ctx Tc → T → AgentLoop T Ctx Tc × Pushed → Type 0
  Placed l item r =
      ((r.1.accepted ≡ true)
        × (r.0.buffer.buf ≡ l.buffer.buf ++ item ∷ [])
        × (r.0.late_items ≡ l.late_items))
      ⊎ ((r.1.accepted ≡ false)
          × (r.0.buffer.buf ≡ l.buffer.buf)
          × (r.0.late_items ≡ l.late_items ++ item ∷ []))

  -- what holds of a push that does not panic
  abbrev pub UnlessPanic :
      (AgentLoop T Ctx Tc × Pushed → Type 0) → Option (AgentLoop T Ctx Tc × Pushed) → Type 0
  UnlessPanic P none = Unit
  UnlessPanic P (some r) = P r

  -- what holds of a push that panics, and of one that does not
  abbrev pub PanicsOr :
      Type 0
      → (AgentLoop T Ctx Tc × Pushed → Type 0)
      → Option (AgentLoop T Ctx Tc × Pushed)
      → Type 0
  PanicsOr N P none = N
  PanicsOr N P (some r) = P r

  -- The late items have been taken, and the loop has been stopped or its buffer closed.
  abbrev pub IsSealed : AgentLoop T Ctx Tc → Type 0
  IsSealed l = (l.late_sealed ≡ true) × ((l.stopped ≡ true) ⊎ (l.buffer.closed ≡ true))

  abbrev in_flight : AgentLoop T Ctx Tc → ℕ
  in_flight l = l.preempt_ctrl.push_in_flight

  -- A follow-up accepts, and leaves the buffer, the late items and the count of pushes alone.
  abbrev Accepts : (AgentLoop T Ctx Tc → AgentLoop T Ctx Tc × Pushed) → Type 0
  Accepts follow =
      (m : AgentLoop T Ctx Tc)
      → ((follow m).1.accepted ≡ true)
        × ((follow m).0.buffer ≡ m.buffer)
        × ((follow m).0.late_items ≡ m.late_items)
        × (in_flight (follow m).0 ≡ in_flight m)

  ask-Accepts :
      (now fresh : ℕ) (snapshot : Snapshot Ctx Tc) (cfg : PushConfig)
      → Accepts (λ m. ask now fresh m snapshot cfg)
  ask-Accepts now fresh snapshot cfg m = elim (Bool-cases (not m.started)) [
    | inl early ↦ rw early (refl, refl, refl, refl)
    | inr on ↦ rw on (elim (Bool-cases (is_positive cfg.preempt_delay)) [
      | inl later ↦ rw later (refl, refl, refl, refl)
      | inr at_once ↦ rw at_once (
        refl,
        refl,
        refl,
        request_preempt-in_flight now m.preempt_ctrl snapshot (some fresh) cfg.agent_cancel_opts,
      )
    ])
  ]

  -- The item is placed, and so many pushes are under way.
  abbrev PlacedIn : ℕ → AgentLoop T Ctx Tc → T → AgentLoop T Ctx Tc × Pushed → Type 0
  PlacedIn n l item r = Placed l item r × (in_flight r.0 ≡ n)

  -- a loop that differs from another in its controllers at most
  record Keeps (l m : AgentLoop T Ctx Tc) : Type 0 where
    buffer : m.buffer ≡ l.buffer
    late_items : m.late_items ≡ l.late_items
    late_sealed : m.late_sealed ≡ l.late_sealed

  late-Placed :
      (l m : AgentLoop T Ctx Tc) (item : T)
      → Keeps l m
      → (l.stopped ≡ true) ⊎ (l.buffer.closed ≡ true)
      → PanicsOr (IsSealed l) (PlacedIn (in_flight m) l item) (late m item)
  unfolding append_late
  late-Placed l m item k why = elim (Bool-cases m.late_sealed) [
    | inl sealed ↦ rw sealed (sym k.late_sealed ∙ sealed, why)
    | inr unsealed ↦
        rw unsealed
          (inr (refl, ap (λ b. b.buf) k.buffer, ap (λ xs. xs ++ item ∷ []) k.late_items), refl)
  ]

  sending-Placed :
      (l m : AgentLoop T Ctx Tc) (item : T)
      (follow : AgentLoop T Ctx Tc → AgentLoop T Ctx Tc × Pushed)
      → Keeps l m
      → Accepts follow
      → PanicsOr (IsSealed l) (PlacedIn (in_flight m) l item) (sending m item follow)
  sending-Placed l m item follow k ok_ = elim (Bool-cases (try_send m.buffer item).1) [
    | inl sent ↦
        let f = ok_ (record m { buffer = (try_send m.buffer item).0 }) in
        rw sent (
          inl (
            f.0,
            ap (λ b. b.buf) f.1
                ∙ sent_items m.buffer item sent
                ∙ ap (λ b. b.buf ++ item ∷ []) k.buffer,
            f.2 ∙ k.late_items,
          ),
          f.3,
        )
    | inr refused ↦ rw refused (
        late-Placed l m item k
          (inr (sym (ap (λ b. b.closed) k.buffer) ∙ refused_closed m.buffer item refused)))
  ]

  -- The deferred endPush does not panic behind beginPush.
  ended-Placed :
      (n : ℕ) (l : AgentLoop T Ctx Tc) (item : T) (o : Option (AgentLoop T Ctx Tc × Pushed))
      → PanicsOr (IsSealed l) (PlacedIn (suc n) l item) o
      → PanicsOr (IsSealed l) (Placed l item) (ended o)
  unfolding end_push
  ended-Placed n l item none h = h
  ended-Placed n l item (some (m, p)) h = rw (h.1) h.0

  without_count :
      (n : ℕ) (l : AgentLoop T Ctx Tc) (item : T) (o : Option (AgentLoop T Ctx Tc × Pushed))
      → PanicsOr (IsSealed l) (PlacedIn n l item) o
      → PanicsOr (IsSealed l) (Placed l item) o
  without_count n l item none h = h
  without_count n l item (some r) h = h.0

  if_panics :
      (N : Type 0) (P : AgentLoop T Ctx Tc × Pushed → Type 0) (b : Bool)
      (x y : Option (AgentLoop T Ctx Tc × Pushed))
      → (b ≡ true → PanicsOr N P x)
      → PanicsOr N P y
      → PanicsOr N P (if b then x else y)
  if_panics N P true x y h k = h refl
  if_panics N P false x y h k = k

  chosen :
      (P : AgentLoop T Ctx Tc × Pushed → Type 0) (b : Bool)
      (x y : Option (AgentLoop T Ctx Tc × Pushed))
      → UnlessPanic P x
      → UnlessPanic P y
      → UnlessPanic P (if b then x else y)
  chosen P true x y h k = h
  chosen P false x y h k = k

  -- Push puts the item behind those in the buffer and answers that it is accepted, or it puts it
  -- behind the late items and answers that it is not; it panics only if the late items have been taken
  -- and the loop has been stopped or its buffer closed. This holds on every path, with preemption and
  -- without.
  pub push-Placed :
      (now fresh : ℕ) (l : AgentLoop T Ctx Tc) (item : T) (options : PushOptions Ctx Tc)
      → PanicsOr (IsSealed l) (Placed l item) (push now fresh l item options)
  unfolding push push_with_config push_with_strategy begin_push
  push-Placed now fresh l item (with_config cfg) =
      let m = record l { preempt_ctrl = (begin_push l.preempt_ctrl).0 } in
      let same : Keeps l m = record { buffer = refl; late_items = refl; late_sealed = refl } in
      let here : Keeps l l = record { buffer = refl; late_items = refl; late_sealed = refl } in
      if_panics (IsSealed l) (Placed l item) l.stopped _ _
        (λ stopped. without_count (in_flight l) l item _ (late-Placed l l item here (inl stopped)))
        (if_panics (IsSealed l) (Placed l item) cfg.preempt _ _
          (λ preempts. ended-Placed (in_flight l) l item _ (
            sending-Placed l m item (λ n. ask now fresh n (begin_push l.preempt_ctrl).1 cfg) same
              (ask-Accepts now fresh (begin_push l.preempt_ctrl).1 cfg)))
          (without_count (in_flight l) l item _
            (sending-Placed l l item accept here (λ n. (refl, refl, refl, refl)))))
  push-Placed now fresh l item (with_strategy strategy) =
      let begun = begin_push l.preempt_ctrl in
      let m = record l { preempt_ctrl = begun.0 } in
      let cfg = strategy begun.1.ctx begun.1.tc in
      let same : Keeps l m = record { buffer = refl; late_items = refl; late_sealed = refl } in
      let in_ = PlacedIn (suc (in_flight l)) l item in
      ended-Placed (in_flight l) l item _ (
        if_panics (IsSealed l) in_ (not cfg.preempt) _ _
          (λ plain. sending-Placed l m item accept same (λ n. (refl, refl, refl, refl)))
          (if_panics (IsSealed l) in_ l.stopped _ _
            (λ stopped. late-Placed l m item same (inl stopped))
            (sending-Placed l m item (λ n. ask now fresh n begun.1 cfg) same
              (ask-Accepts now fresh begun.1 cfg))))

  Refused : AgentLoop T Ctx Tc × Pushed → Type 0
  Refused r = r.1.accepted ≡ false

  late-Refused : (m : AgentLoop T Ctx Tc) (item : T) → UnlessPanic Refused (late m item)
  unfolding append_late Refused
  late-Refused m item = elim (Bool-cases m.late_sealed) [
    | inl sealed ↦ rw sealed tt
    | inr unsealed ↦ rw unsealed refl
  ]

  sending-Refused :
      (m : AgentLoop T Ctx Tc) (item : T)
      (follow : AgentLoop T Ctx Tc → AgentLoop T Ctx Tc × Pushed)
      → m.buffer.closed ≡ true
      → UnlessPanic Refused (sending m item follow)
  sending-Refused m item follow shut = rw (not_sent m.buffer item shut) (late-Refused m item)

  ended-Refused :
      (o : Option (AgentLoop T Ctx Tc × Pushed))
      → UnlessPanic Refused o
      → UnlessPanic Refused (ended o)
  unfolding Refused
  ended-Refused none h = tt
  ended-Refused (some (m, p)) h = elim (Option-cases (end_push m.preempt_ctrl)) [
    | inl over ↦ rw over tt
    | inr (c, on) ↦ rw on h
  ]

  push-Refused :
      (now fresh : ℕ) (l : AgentLoop T Ctx Tc) (item : T) (options : PushOptions Ctx Tc)
      → l.buffer.closed ≡ true
      → UnlessPanic Refused (push now fresh l item options)
  unfolding push push_with_config push_with_strategy
  push-Refused now fresh l item (with_config cfg) shut =
      let m = record l { preempt_ctrl = (begin_push l.preempt_ctrl).0 } in
      chosen Refused l.stopped _ _ (late-Refused l item) (
        chosen Refused cfg.preempt _ _
          (ended-Refused _
            (sending-Refused m item (λ n. ask now fresh n (begin_push l.preempt_ctrl).1 cfg) shut))
          (sending-Refused l item accept shut))
  push-Refused now fresh l item (with_strategy strategy) shut =
      let begun = begin_push l.preempt_ctrl in
      let m = record l { preempt_ctrl = begun.0 } in
      let cfg = strategy begun.1.ctx begun.1.tc in
      ended-Refused _ (
        chosen Refused (not cfg.preempt) _ _ (sending-Refused m item accept shut) (
          chosen Refused l.stopped _ _ (late-Refused m item)
            (sending-Refused m item (λ n. ask now fresh n begun.1 cfg) shut)))

  -- a loop whose stop has been committed has closed its buffer
  abbrev pub IsSettled : AgentLoop T Ctx Tc → Type 0
  IsSettled l = is_committed l.stop_ctrl.phase ≡ true → l.buffer.closed ≡ true

  decided-closed :
      (d : StopDecision) (l : AgentLoop T Ctx Tc)
      → (d.commit ≡ true) ⊎ (l.buffer.closed ≡ true)
      → (decided d l).buffer.closed ≡ true
  unfolding finish_stop_commit Buffer.close wakeup
  decided-closed d l (inl commits) = ground arith
  decided-closed d l (inr shut) = elim (Bool-cases d.commit) [
    | inl commits ↦ ground arith
    | inr stays ↦ rw stays (waking d.wake_idle)
  ]
    where
      waking :
          (b : Bool) → (if b then record l { buffer = wakeup l.buffer } else l).buffer.closed ≡ true
      waking true = shut
      waking false = shut

  closed-stop :
      (now : ℕ) (l : AgentLoop T Ctx Tc) (cfg : StopConfig)
      → IsSettled l
      → l.stop_ctrl.closed ≡ false
      → is_positive cfg.idle_for ≡ false
      → (stop now l cfg).buffer.closed ≡ true
  unfolding stop
  closed-stop now l cfg h running soon =
      let r = request_stop now (stop_config cfg) l.stop_ctrl in
      let told =
        request_stop-commits now (stop_config cfg) l.stop_ctrl running (soon_too cfg soon) in
      decided-closed r.1 (record l { stop_ctrl = r.0 })
        (elim (Bool-cases (is_committed l.stop_ctrl.phase)) [
          | inl already ↦ inr (h already)
          | inr first ↦ inl (told ∙ ap not first)
        ])

  -- After a Stop that does not wait for the loop to be idle, no Push is accepted, with whatever
  -- options; the loop is running, and has closed its buffer if it has been stopped before.
  pub push_after_stop :
      (now later fresh : ℕ) (l : AgentLoop T Ctx Tc) (cfg : StopConfig) (item : T)
      (options : PushOptions Ctx Tc)
      → IsSettled l
      → l.stop_ctrl.closed ≡ false
      → is_positive cfg.idle_for ≡ false
      → UnlessPanic (λ r. r.1.accepted ≡ false) (push later fresh (stop now l cfg) item options)
  unfolding Refused
  push_after_stop now later fresh l cfg item options h running soon =
      push-Refused later fresh (stop now l cfg) item options (closed-stop now l cfg h running soon)
