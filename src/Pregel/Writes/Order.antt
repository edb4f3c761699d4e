-- ===== src/Pregel/Writes/Order.antt =====
-- The order in which the results of a step arrive does not matter (graphengine/pregel/engine.go,
-- applyWrites).
use Prim.Native.Char.{Char}
use mathlib.Core.List.{Permᴰ}
use mathlib.Core.List.Permᴰ.{nil, cons, swap, trans}
use harness_go.Base.{
  String, ◌≡◌, refl, sym, ap, subst, ◌∙◌, false, List, [], ◌∷◌, ◌==◌, eq_iff, arith, elem, Distinct,
  Bool-cases, inl, inr,
}
use harness_go.Base.Order.{before, before_total, before_antisym, before_trans}
use harness_go.Graph.{StateGraph}
use harness_go.Pregel.Writes.{
  TaskResult, RunState, place, sort_results, apply_writes, collect, nothing_collected,
  write_collected,
}

abbrev pub result_names : List TaskResult → List String
result_names [] = []
result_names (r ∷ rs) = r.name ∷ result_names rs

module _ (p q : TaskResult) (apart : (p.name == q.name) ≡ false) where
  place_comm : (xs : List TaskResult) → place p (place q xs) ≡ place q (place p xs)
  place_comm [] = elim (Bool-cases (before p.name q.name)) [
    | inl pq ↦ elim (Bool-cases (before q.name p.name)) [
      | inl qp ↦ absurd (ground (arith, before_antisym p.name q.name pq qp, eq_iff p.name q.name))
      | inr after ↦ rw (pq, after) refl
    ]
    | inr after ↦ rw (after, before_total p.name q.name after) refl
  ]
  place_comm (x ∷ xs) = elim (Bool-cases (before p.name x.name)) [
    | inl px ↦ elim (Bool-cases (before q.name x.name)) [
      | inl qx ↦ elim (Bool-cases (before p.name q.name)) [
        | inl pq ↦ elim (Bool-cases (before q.name p.name)) [
          | inl qp ↦
              absurd (ground (arith, before_antisym p.name q.name pq qp, eq_iff p.name q.name))
          | inr after ↦ rw (px, qx, pq, after) refl
        ]
        | inr after ↦ rw (px, qx, after, before_total p.name q.name after, px) refl
      ]
      | inr xq ↦ elim (Bool-cases (before q.name p.name)) [
        | inl qp ↦ absurd (ground (arith, before_trans q.name p.name x.name qp px))
        | inr after ↦ rw (px, xq, after, px) refl
      ]
    ]
    | inr xp ↦ elim (Bool-cases (before q.name x.name)) [
      | inl qx ↦ elim (Bool-cases (before p.name q.name)) [
        | inl pq ↦ absurd (ground (arith, before_trans p.name q.name x.name pq qx))
        | inr after ↦ rw (xp, qx, after, xp) refl
      ]
      | inr xq ↦ rw (xp, xq, xp) (ap (λ ys. x ∷ ys) (place_comm xs))
    ]
  ]

elem-names :
    (k : String) (xs ys : List TaskResult)
    → Permᴰ xs ys
    → elem k (result_names xs) ≡ elem k (result_names ys)
unfolding elem
elem-names k _ _ nil = refl
elem-names k (a ∷ xs) (b ∷ ys) (cons e d) = rw (e, elem-names k xs ys d) refl
elem-names k _ _ (swap e f) = rw (e, f) (ground arith)
elem-names k xs zs (trans d f) = elem-names k _ _ d ∙ elem-names k _ _ f

Distinct-swap :
    (a b : TaskResult) (l : List TaskResult)
    → Distinct (result_names (a ∷ b ∷ l))
    → Distinct (result_names (b ∷ a ∷ l))
unfolding elem
Distinct-swap a b l h = (
  ground (arith, h.0, h.1.0, eq_iff b.name a.name, eq_iff a.name b.name),
  (ground (arith, h.0), h.1.1),
)

Distinct-names :
    (xs ys : List TaskResult)
    → Permᴰ xs ys
    → Distinct (result_names xs)
    → Distinct (result_names ys)
unfolding elem
Distinct-names _ _ nil h = tt
Distinct-names (a ∷ xs) (b ∷ ys) (cons e d) h = (
  subst (λ r. elem r.name (result_names ys) ≡ false) e (sym (elem-names a.name xs ys d) ∙ h.0),
  Distinct-names xs ys d h.1,
)
Distinct-names _ _ (swap {a} {b} {a'} {b'} {l} e f) h =
    subst (λ r. Distinct (result_names (r ∷ b' ∷ l))) f
      (subst (λ r. Distinct (result_names (b ∷ r ∷ l))) e (Distinct-swap a b l h))
Distinct-names xs zs (trans d f) h = Distinct-names _ _ f (Distinct-names _ _ d h)

sort-Reordered :
    (xs ys : List TaskResult)
    → Permᴰ xs ys
    → Distinct (result_names xs)
    → sort_results xs ≡ sort_results ys
unfolding sort_results elem
sort-Reordered _ _ nil h = refl
sort-Reordered (a ∷ xs) (b ∷ ys) (cons e d) h = rw (e, sort-Reordered xs ys d h.1) refl
sort-Reordered _ _ (swap {a} {b} {a'} {b'} {l} e f) h =
    place_comm a b (ground (arith, h.0, eq_iff a.name b.name, eq_iff b.name a.name))
      (sort_results l)
    ∙ ap (λ r. place b (place r (sort_results l))) e
    ∙ ap (λ r. place r (place b' (sort_results l))) f
sort-Reordered xs zs (trans d f) h =
    sort-Reordered _ _ d h ∙ sort-Reordered _ _ f (Distinct-names _ _ d h)

-- The writes of a step do not depend on the order in which the results arrive, if each node has one
-- result.
pub apply_writes_order :
    (lower : Char → Char) (g : StateGraph) (results others : List TaskResult)
    (triggers : List String) (s : RunState)
    → Permᴰ results others
    → Distinct (result_names results)
    → apply_writes lower g results triggers s ≡ apply_writes lower g others triggers s
unfolding apply_writes
apply_writes_order lower g results others triggers s d h =
    ap (λ rs. write_collected triggers (collect lower g rs nothing_collected) s)
      (sort-Reordered results others d h)
