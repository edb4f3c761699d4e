-- ===== src/AgentLoop/Requests.antt =====
-- Merged requests to cancel (agentcore/agent_loop_config.go).
use harness_go.Base.{
  ℕ, zero, suc, ◌+◌, ◌-◌, ◌≤◌, ◌≡◌, refl, ap, sym, ◌∙◌, Bool, true, false, Option, none, some, List,
  [], ◌∷◌, ◌++◌, arith, leb, if◌then◌else◌, Bool-cases, inl, inr,
}
use mathlib.Core.List.{Permᴰ}
use harness_go.Clock.{Duration, pos, is_positive}
use harness_go.AgentLoop.{
  CancelMode, cancel_immediate, is_immediate, CancelOption, with_mode, with_recursive,
  CancelRequestState, deadline_of, new_cancel_request_state, earlier, merge_next, merge, remaining,
  timeout_option, cancel_options,
}

earlier_comm : (d e : Option ℕ) → earlier d e ≡ earlier e d
earlier_comm none none = refl
earlier_comm none (some e) = refl
earlier_comm (some d) none = refl
earlier_comm (some d) (some e) = ground arith

-- Two requests merge to the same request in either order.
pub merge_next_comm : (s t : CancelRequestState) → merge_next s t ≡ merge_next t s
unfolding merge_next
merge_next_comm s t = rw (earlier_comm s.deadline t.deadline) (ground arith)

earlier_assoc : (d e f : Option ℕ) → earlier (earlier d e) f ≡ earlier d (earlier e f)
earlier_assoc none none none = refl
earlier_assoc none none (some f) = refl
earlier_assoc none (some e) none = refl
earlier_assoc none (some e) (some f) = ground arith
earlier_assoc (some d) none none = refl
earlier_assoc (some d) none (some f) = ground arith
earlier_assoc (some d) (some e) none = ground arith
earlier_assoc (some d) (some e) (some f) = ground arith

-- Of three requests it does not matter which two are merged first.
pub merge_next_assoc :
    (s t u : CancelRequestState) → merge_next (merge_next s t) u ≡ merge_next s (merge_next t u)
unfolding merge_next
merge_next_assoc s t u = ground (arith, earlier_assoc s.deadline t.deadline u.deadline)

-- an immediate request has no deadline
abbrev pub IsProper : CancelRequestState → Type 0
IsProper s = is_immediate s.mode ≡ true → s.deadline ≡ none

-- whether a request is still in its time
abbrev pub is_due : CancelRequestState → ℕ → Bool
is_due s now = elim s.deadline [ none ↦ false | some d ↦ leb d now ]

parsed :
    (m : CancelMode) (r : Bool) (o : Option Duration) (now : ℕ)
    → new_cancel_request_state
        (with_mode m ∷ (if r then with_recursive ∷ [] else []) ++ timeout_option o)
        now
      ≡ record { mode = m; recursive = r; deadline = deadline_of m o now }
unfolding new_cancel_request_state
parsed m true none now = refl
parsed m false none now = refl
parsed m true (some d) now = refl
parsed m false (some d) now = refl

positive : (n : ℕ) → 1 ≤ n → is_positive (pos n) ≡ true
positive zero h = absurd (omega arith)
positive (suc n) h = refl

abbrev made : CancelMode → Bool → Option ℕ → CancelRequestState
made m r o = record { mode = m; recursive = r; deadline = o }

again :
    (m : CancelMode) (r : Bool) (o : Option ℕ) (now : ℕ)
    → (is_immediate m ≡ true → o ≡ none)
    → made (remaining m o now).0 r (deadline_of (remaining m o now).0 (remaining m o now).1 now)
      ≡ (if is_due (made m r o) now then made cancel_immediate r none else made m r o)
again m r none now h = refl
again m r (some d) now h = elim (Bool-cases (is_immediate m)) [
  | inl soon ↦ absurd (ground (arith, h soon))
  | inr later ↦ elim (Bool-cases (leb d now)) [
    | inl past ↦ rw (later, past) refl
    | inr due ↦
        let lt : 1 ≤ d - now = ground arith in
        let sum : now + (d - now) ≡ d = omega arith in
        rw (later, due, positive (d - now) lt, later, sum) refl
  ]
]

-- The options that a request gives, when they are parsed at the same time, make the same request
-- again, unless its deadline has passed: then they make an immediate one.
pub cancel_options-parsed :
    (s : CancelRequestState) (now : ℕ)
    → IsProper s
    → new_cancel_request_state (cancel_options s now) now ≡ (
        if is_due s now
        then record { mode = cancel_immediate; recursive = s.recursive; deadline = none }
        else s)
unfolding cancel_options
cancel_options-parsed s now h =
    rw
      (parsed (remaining s.mode s.deadline now).0 s.recursive (remaining s.mode s.deadline now).1
        now)
      (again s.mode s.recursive s.deadline now h)

-- a request with the requests that come later, merged in the order in which they come
unfoldable pub merge_all : CancelRequestState → List (List CancelOption) → ℕ → CancelRequestState
unfolding merge
merge_all s [] now = s
merge_all s (os ∷ rest) now = merge_all (merge s (some os) now) rest now

merge-swap :
    (s : CancelRequestState) (a b : List CancelOption) (now : ℕ)
    → merge (merge s (some a) now) (some b) now ≡ merge (merge s (some b) now) (some a) now
unfolding merge
merge-swap s a b now =
    merge_next_assoc s (new_cancel_request_state a now) (new_cancel_request_state b now)
    ∙ ap (λ t. merge_next s t)
        (merge_next_comm (new_cancel_request_state a now) (new_cancel_request_state b now))
    ∙ sym (merge_next_assoc s (new_cancel_request_state b now) (new_cancel_request_state a now))

merge_all-permuted :
    {xs ys : List (List CancelOption)} (s : CancelRequestState) (now : ℕ)
    → Permᴰ xs ys
    → merge_all s xs now ≡ merge_all s ys now
unfolding merge_all
merge_all-permuted s now Permᴰ.nil = refl
merge_all-permuted s now (Permᴰ.cons {a = a} {b = b} {l₁ = l} {l₂ = k} e p) =
    ap (λ x. merge_all (merge s (some x) now) l now) e
    ∙ merge_all-permuted (merge s (some b) now) now p
merge_all-permuted s now (Permᴰ.swap {a = a} {b = b} {a' = c} {b' = d} {l = l} e f) =
    ap (λ t. merge_all t l now) (merge-swap s a b now)
    ∙ ap (λ x. merge_all (merge (merge s (some x) now) (some a) now) l now) f
    ∙ ap (λ x. merge_all (merge (merge s (some c) now) (some x) now) l now) e
merge_all-permuted s now (Permᴰ.trans p q) = merge_all-permuted s now p ∙ merge_all-permuted s now q

-- the first of the requests, with the later ones merged into it
unfoldable pub merge_requests : List (List CancelOption) → ℕ → Option CancelRequestState
unfolding new_cancel_request_state merge_all
merge_requests [] now = none
merge_requests (os ∷ rest) now = some (merge_all (new_cancel_request_state os now) rest now)

-- the first two requests change places
merge-first_two :
    (a b : List CancelOption) (now : ℕ)
    → merge (new_cancel_request_state a now) (some b) now
      ≡ merge (new_cancel_request_state b now) (some a) now
unfolding merge
merge-first_two a b now =
    merge_next_comm (new_cancel_request_state a now) (new_cancel_request_state b now)

-- Requests that come at the same time merge to the same request in any order, the one that comes first
-- included.
pub merge_requests_order :
    {xs ys : List (List CancelOption)} (now : ℕ)
    → Permᴰ xs ys
    → merge_requests xs now ≡ merge_requests ys now
unfolding merge_requests merge_all
merge_requests_order now Permᴰ.nil = refl
merge_requests_order now (Permᴰ.cons {a = a} {b = b} {l₁ = l} {l₂ = k} e p) =
    ap (λ x. some (merge_all (new_cancel_request_state x now) l now)) e
    ∙ ap some (merge_all-permuted (new_cancel_request_state b now) now p)
merge_requests_order now (Permᴰ.swap {a = a} {b = b} {a' = c} {b' = d} {l = l} e f) =
    ap (λ t. some (merge_all t l now)) (merge-first_two a b now)
    ∙ ap (λ x. some (merge_all (merge (new_cancel_request_state x now) (some a) now) l now)) f
    ∙ ap (λ x. some (merge_all (merge (new_cancel_request_state c now) (some x) now) l now)) e
merge_requests_order now (Permᴰ.trans p q) = merge_requests_order now p ∙ merge_requests_order now q
