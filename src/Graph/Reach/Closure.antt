-- ===== src/Graph/Reach/Closure.antt =====
-- What the search for reachable nodes comes to (graphengine/graph/graph.go): exactly the nodes that
-- a path from the entry point leads to, and its rounds are enough.
use mathlib.Core.List.{append-nil, append_assoc}
use harness_go.Base.{
  ℕ, zero, suc, ◌+◌, ◌≤◌, String, ◌≡◌, ◌↔◌, refl, sym, subst, ◌∙◌, true, false, ◌||◌, List, [], ◌∷◌,
  ◌++◌, ◌==◌, eq_iff, eq_refl, arith, elem, elem-append, Distinct, Subset, length, length-append,
  length-le_of_Subset, Bool-cases, inl, inr,
}
use harness_go.Graph.{StateGraph}
use harness_go.Graph.Reach.{reach_loop, rounds, compute_reachable}
use harness_go.Graph.Reach.Search.{successors, news, follow-news, elem-news, Distinct-news}
use harness_go.Graph.Reach.Ends.{ends, length-ends, successors-Subset}

-- A path leads from the entry point to the node.
pub data Reaches (g : StateGraph) : String → Type 0 where
  entry : Reaches g g.entry_point
  step : (c j : String) → Reaches g c → elem j (successors g c) ≡ true → Reaches g j

-- the successors of the first names are all among the second
abbrev Closed : StateGraph → List String → List String → Type 0
Closed g xs ys =
    (c j : String) → elem c xs ≡ true → elem j (successors g c) ≡ true → elem j ys ≡ true

-- What holds in every round: the names whose successors have been followed, and the queue.
record IsSearch (g : StateGraph) (done queue : List String) : Type 0 where
  distinct : Distinct (done ++ queue)
  known : Subset (done ++ queue) (ends g)
  closed : Closed g done (done ++ queue)
  sound : (k : String) → elem k (done ++ queue) ≡ true → Reaches g k

-- What the search gives.
record IsClosure (g : StateGraph) (reached : List String) : Type 0 where
  has_entry : elem g.entry_point reached ≡ true
  all_closed : Closed g reached reached
  all_sound : (k : String) → elem k reached ≡ true → Reaches g k

module _ (g : StateGraph) (done : List String) (c : String) (queue : List String) where
  abbrev now : List String
  now = done ++ c ∷ queue

  abbrev found : List String
  found = news (successors g c) now

  regroup : now ++ found ≡ (done ++ c ∷ []) ++ (queue ++ found)
  regroup = append_assoc done (c ∷ queue) found ∙ sym (append_assoc done (c ∷ []) (queue ++ found))

  elem-after : (k : String) → elem k (now ++ found) ≡ (elem k now || elem k (successors g c))
  elem-after k = elem-append k now found ∙ elem-news k (successors g c) now

  current-reached : elem c now ≡ true
  unfolding elem
  current-reached = elem-append c done (c ∷ queue) ∙ ground (arith, eq_refl c)

  Closed-after : Closed g done now → Closed g (done ++ c ∷ []) (now ++ found)
  unfolding elem
  Closed-after h d j m s = elim (Bool-cases (elem d done)) [
    | inl old ↦ elem-after j ∙ ground (arith, h d j old s)
    | inr new ↦
        let same : c ≡ d = (eq_iff c d).0 (ground (arith, elem-append d done (c ∷ []))) in
        let here : elem j (successors g c) ≡ true =
          subst (λ x. elem j (successors g x) ≡ true) (sym same) s in
        elem-after j ∙ ground (arith)
  ]

  sound-after :
      ((k : String) → elem k now ≡ true → Reaches g k)
      → (k : String) → elem k (now ++ found) ≡ true
      → Reaches g k
  sound-after h k m = elim (Bool-cases (elem k now)) [
    | inl old ↦ h k old
    | inr new ↦
        let led : elem k (successors g c) ≡ true = ground (arith, elem-after k) in
        step c k (h c current-reached) led
  ]

  next-IsSearch : IsSearch g done (c ∷ queue) → IsSearch g (done ++ c ∷ []) (queue ++ found)
  next-IsSearch v = record {
    distinct = subst Distinct regroup (Distinct-news (successors g c) now v.distinct);
    known =
        subst (λ xs. Subset xs (ends g)) regroup
          (λ k m. ground (arith, elem-after k, v.known k, successors-Subset g c k));
    closed = subst (Closed g (done ++ c ∷ [])) regroup (Closed-after v.closed);
    sound =
        subst (λ xs. (k : String) → elem k xs ≡ true → Reaches g k) regroup (sound-after v.sound);
  }

finished-IsClosure :
    (g : StateGraph) (done : List String)
    → elem g.entry_point (done ++ []) ≡ true
    → IsSearch g done []
    → IsClosure g (done ++ [])
finished-IsClosure g done h v = record {
  has_entry = h;
  all_closed = subst (λ xs. Closed g xs (done ++ [])) (sym (append-nil done)) v.closed;
  all_sound = v.sound;
}

-- With as many rounds left as there are names that may still come, the search ends with an empty
-- queue.
reach_loop-IsClosure :
    (g : StateGraph) (n : ℕ) (done queue : List String)
    → length (ends g) ≤ length done + n
    → elem g.entry_point (done ++ queue) ≡ true
    → IsSearch g done queue
    → IsClosure g (reach_loop g n (done ++ queue, queue))
unfolding reach_loop elem
reach_loop-IsClosure g zero done [] h e v = finished-IsClosure g done e v
reach_loop-IsClosure g zero done (c ∷ queue) h e v =
    let room = length-le_of_Subset (done ++ c ∷ queue) (ends g) v.distinct v.known in
    let sum = length-append done (c ∷ queue) in absurd (omega arith)
reach_loop-IsClosure g (suc n) done [] h e v = finished-IsClosure g done e v
reach_loop-IsClosure g (suc n) done (c ∷ queue) h e v =
    rw (follow-news g c (done ++ c ∷ queue) queue, regroup g done c queue)
      (reach_loop-IsClosure g n (done ++ c ∷ []) (queue ++ found g done c queue)
        (let sum = length-append done (c ∷ []) in omega arith)
        (subst (λ xs. elem g.entry_point xs ≡ true) (regroup g done c queue)
          (elem-after g done c queue g.entry_point ∙ ground arith))
        (next-IsSearch g done c queue v))

compute_reachable-IsClosure :
    (g : StateGraph) → (g.entry_point == "") ≡ false → IsClosure g (compute_reachable g)
unfolding compute_reachable elem
compute_reachable-IsClosure g h = rw h (
    reach_loop-IsClosure g (rounds g) [] (g.entry_point ∷ [])
      (let all = length-ends g in omega arith) (ground (arith, eq_refl g.entry_point))
      (record {
        distinct = (refl, tt);
        known = λ k m. ground arith;
        closed = λ d j m s. cc;
        sound = λ k m. subst (Reaches g) ((eq_iff g.entry_point k).0 (ground arith)) entry;
      }))

complete-Reaches :
    (g : StateGraph) (reached : List String) (k : String)
    → IsClosure g reached
    → Reaches g k
    → elem k reached ≡ true
complete-Reaches g reached k v (entry) = v.has_entry
complete-Reaches g reached k v (step c j r s) =
    v.all_closed c j (complete-Reaches g reached c v r) s

-- In a graph with an entry point the computed set holds exactly the names that a path of edges and
-- conditional edges leads to from the entry point; the rounds of the search are enough for it.
pub compute_reachable_iff :
    (g : StateGraph) (k : String)
    → (g.entry_point == "") ≡ false
    → (elem k (compute_reachable g) ≡ true) ↔ Reaches g k
compute_reachable_iff g k h =
    let v = compute_reachable-IsClosure g h in
    (λ m. v.all_sound k m, λ r. complete-Reaches g (compute_reachable g) k v r)
