-- ===== src/AgentLoop/Preempt/Acks.antt =====
-- The steps of the preempt controller in any interleaving, and what becomes of the acknowledgements
-- (agentcore/agent_loop_preempt.go).
use harness_go.Base.{
  ℕ, zero, suc, ◌+◌, ◌≡◌, ◌↔◌, refl, subst, ap, true, false, not, ◌||◌, Option, none, some, List,
  [], ◌∷◌, ◌++◌, arith, nat_beq, if◌then◌else◌, is_some, Bool-cases, some_if, some_unless, inl, inr,
}
use harness_go.AgentLoop.{CancelOption}
use harness_go.AgentLoop.Preempt.{
  is_idle, is_planning, is_active, PreemptRequest, ack_list, acks, Snapshot, PreemptController,
  new_preempt_controller, begin_planning_turn, abort_planning_turn, begin_active_turn,
  end_active_turn, begin_push, end_push, one_less, too_late, to_idle, request_preempt,
  receive_preempt, close_for_loop_exit, merged,
}

abbrev pub count : ℕ → List ℕ → ℕ
count a [] = 0
count a (b ∷ bs) = let rest = count a bs in if nat_beq a b then suc rest else rest

count-append : (a : ℕ) (xs ys : List ℕ) → count a (xs ++ ys) ≡ count a xs + count a ys
count-append a [] ys = omega arith
count-append a (x ∷ xs) ys = ground (arith, count-append a xs ys)

module _ {Ctx Tc : Type 0} where
  -- One step: the acknowledgements that it asks for, and those that it closes or hands out with a
  -- request.
  pub data Step
      : PreemptController Ctx Tc → List ℕ → List ℕ → PreemptController Ctx Tc → Type 0 where
    begins : (c d : PreemptController Ctx Tc) → begin_planning_turn c ≡ some d → Step c [] [] d
    aborts :
        (c d : PreemptController Ctx Tc) (o : Option PreemptRequest)
        → abort_planning_turn c ≡ some (d, o)
        → Step c [] (acks o) d
    activates :
        (c d : PreemptController Ctx Tc) (ctx : Ctx) (tc : Tc)
        → begin_active_turn c ctx tc ≡ some d
        → Step c [] [] d
    ends :
        (c d : PreemptController Ctx Tc) (o : Option PreemptRequest)
        → end_active_turn c ≡ some (d, o)
        → Step c [] (acks o) d
    pushes : (c : PreemptController Ctx Tc) → Step c [] [] (begin_push c).0
    pushed : (c d : PreemptController Ctx Tc) → end_push c ≡ some d → Step c [] [] d
    requests :
        (now : ℕ) (c : PreemptController Ctx Tc) (target : Snapshot Ctx Tc) (ack : Option ℕ)
        (opts : Option (List CancelOption))
        → Step c
            (ack_list ack)
            (request_preempt now c target ack opts).1
            (request_preempt now c target ack opts).0
    receives :
        (c : PreemptController Ctx Tc)
        → Step c [] (acks (receive_preempt c).1) (receive_preempt c).0
    exits :
        (c : PreemptController Ctx Tc)
        → Step c [] (close_for_loop_exit c).1 (close_for_loop_exit c).0

  -- A run of steps from the new controller.
  pub data Run : List ℕ → List ℕ → PreemptController Ctx Tc → Type 0 where
    start : Run [] [] new_preempt_controller
    next :
        {asked out more gone : List ℕ} {c d : PreemptController Ctx Tc}
        → Run asked out c
        → Step c more gone d
        → Run (asked ++ more) (out ++ gone) d

  -- Nothing is pending between the turns, nor after the loop has exited.
  pub record IsSound (c : PreemptController Ctx Tc) : Type 0 where
    between : is_idle c.turn_phase ≡ true → c.pending ≡ none
    after : c.closed ≡ true → c.pending ≡ none

  -- What a step keeps: soundness, and the number of times that an acknowledgement is out or pending.
  Keeps : PreemptController Ctx Tc → List ℕ → List ℕ → PreemptController Ctx Tc → Type 0
  Keeps c more gone d =
      IsSound d
      × ((a : ℕ)
          → count a gone + count a (acks d.pending) ≡ count a more + count a (acks c.pending))

  to_idle-Keeps : (c : PreemptController Ctx Tc) → Keeps c [] (acks c.pending) (to_idle c).0
  unfolding Keeps
  to_idle-Keeps c = (record { between = λ h. refl; after = λ h. refl }, λ a. omega arith)

  begins-Keeps :
      (c d : PreemptController Ctx Tc)
      → IsSound c
      → begin_planning_turn c ≡ some d
      → Keeps c [] [] d
  unfolding begin_planning_turn Keeps
  begins-Keeps c d h e =
      let made = some_unless (not (is_idle c.turn_phase) || is_some c.pending) _ d e in
      subst (λ x. Keeps c [] [] x) made.1
        (record { between = λ k. absurd (ground (arith, k)); after = h.after }, λ a. refl)

  activates-Keeps :
      (c d : PreemptController Ctx Tc) (ctx : Ctx) (tc : Tc)
      → IsSound c
      → begin_active_turn c ctx tc ≡ some d
      → Keeps c [] [] d
  unfolding begin_active_turn Keeps
  activates-Keeps c d ctx tc h e =
      subst (λ x. Keeps c [] [] x) (some_if (is_planning c.turn_phase) _ d e).1
        (record { between = λ k. absurd (ground (arith, k)); after = h.after }, λ a. refl)

  aborts-Keeps :
      (c d : PreemptController Ctx Tc) (o : Option PreemptRequest)
      → abort_planning_turn c ≡ some (d, o)
      → Keeps c [] (acks o) d
  unfolding abort_planning_turn
  aborts-Keeps c d o e =
      subst (λ x. Keeps c [] (acks x.1) x.0)
        (some_if (is_planning c.turn_phase) (to_idle c) (d, o) e).1 (to_idle-Keeps c)

  ends-Keeps :
      (c d : PreemptController Ctx Tc) (o : Option PreemptRequest)
      → end_active_turn c ≡ some (d, o)
      → Keeps c [] (acks o) d
  unfolding end_active_turn
  ends-Keeps c d o e =
      subst (λ x. Keeps c [] (acks x.1) x.0)
        (some_if (is_active c.turn_phase) (to_idle c) (d, o) e).1 (to_idle-Keeps c)

  pushed-Keeps :
      (c d : PreemptController Ctx Tc) → IsSound c → end_push c ≡ some d → Keeps c [] [] d
  unfolding end_push Keeps
  pushed-Keeps c d h e = less c.push_in_flight e
    where
      less : (n : ℕ) → one_less c n ≡ some d → Keeps c [] [] d
      less zero k = absurd cc
      less (suc n) k =
          subst (λ x. Keeps c [] [] x) (some_if true (record c { push_in_flight = n }) d k).1
            (record { between = h.between; after = h.after }, λ a. refl)

  requests-Keeps :
      (now : ℕ) (c : PreemptController Ctx Tc) (target : Snapshot Ctx Tc) (ack : Option ℕ)
      (opts : Option (List CancelOption))
      → IsSound c
      → Keeps c
          (ack_list ack)
          (request_preempt now c target ack opts).1
          (request_preempt now c target ack opts).0
  unfolding request_preempt Keeps
  requests-Keeps now c target ack opts h = elim (Bool-cases (too_late c target)) [
    | inl late ↦ rw late (h, λ a. refl)
    | inr timely ↦ rw timely (
      record {
        between = λ k. absurd (ground (arith, k, timely));
        after = λ k. absurd (ground (arith, k, timely));
      },
      λ a. count-merged a c.pending,
    )
  ]
    where
      count-merged :
          (a : ℕ) (p : Option PreemptRequest)
          → count a [] + count a (merged p ack opts now).ack_chans
            ≡ count a (ack_list ack) + count a (acks p)
      count-merged a none = omega arith
      count-merged a (some r) = omega (arith, count-append a r.ack_chans (ack_list ack))

  receives-Keeps :
      (c : PreemptController Ctx Tc)
      → IsSound c
      → Keeps c [] (acks (receive_preempt c).1) (receive_preempt c).0
  unfolding receive_preempt Keeps
  receives-Keeps c h = elim (Bool-cases (not (is_active c.turn_phase) || not (is_some c.pending))) [
    | inl nothing ↦ rw nothing (h, λ a. refl)
    | inr ready ↦ rw ready (record { between = λ k. refl; after = λ k. refl }, λ a. omega arith)
  ]

  Step-Keeps :
      {c d : PreemptController Ctx Tc} {more gone : List ℕ}
      → IsSound c
      → Step c more gone d
      → Keeps c more gone d
  unfolding begin_push close_for_loop_exit Keeps
  Step-Keeps h (begins c d e) = begins-Keeps c d h e
  Step-Keeps h (aborts c d o e) = aborts-Keeps c d o e
  Step-Keeps h (activates c d ctx tc e) = activates-Keeps c d ctx tc h e
  Step-Keeps h (ends c d o e) = ends-Keeps c d o e
  Step-Keeps h (pushes c) = (record { between = h.between; after = h.after }, λ a. refl)
  Step-Keeps h (pushed c d e) = pushed-Keeps c d h e
  Step-Keeps h (requests now c target ack opts) = requests-Keeps now c target ack opts h
  Step-Keeps h (receives c) = receives-Keeps c h
  Step-Keeps h (exits c) = (record { between = λ k. refl; after = λ k. refl }, λ a. omega arith)

  Run-Keeps :
      {asked out : List ℕ} {c : PreemptController Ctx Tc}
      → Run asked out c
      → IsSound c × ((a : ℕ) → count a out + count a (acks c.pending) ≡ count a asked)
  unfolding Keeps new_preempt_controller
  Run-Keeps start = (record { between = λ k. refl; after = λ k. refl }, λ a. refl)
  Run-Keeps (next {asked = asked} {out = out} {more = more} {gone = gone} {c = c} {d = d} r step) =
      let before = Run-Keeps r in
      let one = Step-Keeps before.0 step in (one.0, λ a. counted a (before.1 a) (one.1 a))
    where
      counted :
          (a : ℕ)
          → count a out + count a (acks c.pending) ≡ count a asked
          → count a gone + count a (acks d.pending) ≡ count a more + count a (acks c.pending)
          → count a (out ++ gone) + count a (acks d.pending) ≡ count a (asked ++ more)
      counted a h k = omega (arith, count-append a out gone, count-append a asked more, h, k)

  -- In any interleaving of the methods, no acknowledgement is lost and none is given twice: each is
  -- asked for as often as it has been closed or handed out with a request, or is pending.
  pub acks_kept :
      {asked out : List ℕ} {c : PreemptController Ctx Tc} (a : ℕ)
      → Run asked out c
      → count a out + count a (acks c.pending) ≡ count a asked
  acks_kept a r = (Run-Keeps r).1 a

  -- Once the loop has exited, every acknowledgement that was asked for, before the exit or after it,
  -- has been closed or handed out with a request.
  pub acks_released :
      {asked out : List ℕ} {c : PreemptController Ctx Tc} (a : ℕ)
      → Run asked out c
      → c.closed ≡ true
      → count a out ≡ count a asked
  acks_released {out = out} {c = c} a r h =
      let gone : count a (acks c.pending) ≡ 0 =
        ap (λ p. count a (acks p)) ((Run-Keeps r).0.after h) in
      omega (arith, acks_kept a r)

  -- Whenever a turn is begun between two turns, no request of an earlier turn is pending: the check
  -- for a stale request never panics.
  pub begin_planning_turn-total :
      {asked out : List ℕ} {c : PreemptController Ctx Tc}
      → Run asked out c
      → (begin_planning_turn c ≡ none) ↔ (is_idle c.turn_phase ≡ false)
  unfolding begin_planning_turn
  begin_planning_turn-total {c = c} r = elim (Bool-cases (is_idle c.turn_phase)) [
    | inl rest ↦
        let clean : is_some c.pending ≡ false = ap is_some ((Run-Keeps r).0.between rest) in
        rw (rest, clean) (λ e. absurd cc, λ f. absurd (ground arith))
    | inr busy ↦ rw busy (λ e. refl, λ f. refl)
  ]
