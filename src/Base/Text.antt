-- ===== src/Base/Text.antt =====
-- Texts in parts: strings.Split and strings.Join of Go at a separator of one letter.
use Prim.Native.Nat.{suc, ◌≤◌}
use Prim.Native.Char.{Char, code}
use Prim.Native.String
use Prim.Native.String.{String}
use mathlib.Core.Path.{◌≡◌, refl, sym, ap, ◌∙◌}
use mathlib.Core.Bool.{Bool, true}
use mathlib.Core.Logic.{inl, inr}
use mathlib.Core.List.{List, [], ◌∷◌, ◌++◌}
use native.Mathlib.Omega.{arith}
use text.Mathlib.TextEquality.{Char-path}
use text.Mathlib.TextLemmas.{nil-append, cons-append}
use harness_go.Base.Tests.{if◌then◌else◌, nat_beq, leb, Bool-cases}
use harness_go.Base.Lists.{length}

-- a letter in front of the first part
abbrev pub push_letter : Char → List String → List String
push_letter c [] = String.◌∷◌ c String.[] ∷ []
push_letter c (w ∷ ws) = String.◌∷◌ c w ∷ ws

unfoldable pub split_at : Char → String → List String
split_at sep String.[] = "" ∷ []
split_at sep (String.◌∷◌ c s) =
    let rest = split_at sep s in
    if nat_beq (code c) (code sep) then "" ∷ rest else push_letter c rest

unfoldable pub join_at : Char → List String → String
join_at sep [] = ""
join_at sep (s ∷ []) = s
join_at sep (s ∷ t ∷ ts) = String.◌++◌ s (String.◌∷◌ sep (join_at sep (t ∷ ts)))

push_letter-append :
    (c : Char) (ws us : List String)
    → 1 ≤ length ws
    → push_letter c (ws ++ us) ≡ push_letter c ws ++ us
push_letter-append c [] us h = absurd (omega arith)
push_letter-append c (w ∷ ws) us h = refl

length-push_letter :
    (c : Char) (ws : List String) → 1 ≤ length ws → length (push_letter c ws) ≡ length ws
length-push_letter c [] h = absurd (omega arith)
length-push_letter c (w ∷ ws) h = refl

-- there is always a first part
pub length-split_at : (sep : Char) (s : String) → 1 ≤ length (split_at sep s)
unfolding split_at
length-split_at sep String.[] = omega arith
length-split_at sep (String.◌∷◌ c s) = elim (Bool-cases (nat_beq (code c) (code sep))) [
  | inl at ↦ rw at (omega arith)
  | inr other ↦ rw other (
      let ih = length-split_at sep s in
      let same = length-push_letter c (split_at sep s) ih in omega arith)
]

-- A separator between two texts ends one part and begins the next.
pub split_at-append :
    (sep : Char) (s t : String)
    → split_at sep (String.◌++◌ s (String.◌∷◌ sep t)) ≡ split_at sep s ++ split_at sep t
unfolding split_at
split_at-append sep String.[] t =
    let same : nat_beq (code sep) (code sep) ≡ true = ground arith in rw (nil-append, same) refl
split_at-append sep (String.◌∷◌ c s) t =
    rw cons-append (elim (Bool-cases (nat_beq (code c) (code sep))) [
      | inl at ↦ rw (at, split_at-append sep s t) refl
      | inr other ↦
          rw (other, split_at-append sep s t)
            (push_letter-append c (split_at sep s) (split_at sep t) (length-split_at sep s))
    ])

-- A text that is a single part is that part.
pub split_at-single :
    (sep : Char) (s : String) → length (split_at sep s) ≡ 1 → split_at sep s ≡ s ∷ []
unfolding split_at
split_at-single sep String.[] h = refl
split_at-single sep (String.◌∷◌ c s) h = elim (Bool-cases (nat_beq (code c) (code sep))) [
  | inl at ↦
      let more = length-split_at sep s in
      let bad : suc (length (split_at sep s)) ≡ 1 = rw at at h in absurd (omega arith)
  | inr other ↦
      let one : length (push_letter c (split_at sep s)) ≡ 1 = rw other at h in
      let same = length-push_letter c (split_at sep s) (length-split_at sep s) in
      rw (other, split_at-single sep s (sym same ∙ one)) refl
]

-- strings.Contains: `find` gives a position behind the text where there is none.
abbrev pub contains : String → String → Bool
contains s part = leb (String.find s part) (String.len s)

join_at-push_letter :
    (sep c : Char) (ws : List String)
    → 1 ≤ length ws
    → join_at sep (push_letter c ws) ≡ String.◌∷◌ c (join_at sep ws)
unfolding join_at
join_at-push_letter sep c [] h = absurd (omega arith)
join_at-push_letter sep c (w ∷ []) h = refl
join_at-push_letter sep c (w ∷ u ∷ us) h = cons-append c w (String.◌∷◌ sep (join_at sep (u ∷ us)))

join_at-empty :
    (sep : Char) (ws : List String)
    → 1 ≤ length ws
    → join_at sep ("" ∷ ws) ≡ String.◌∷◌ sep (join_at sep ws)
unfolding join_at
join_at-empty sep [] h = absurd (omega arith)
join_at-empty sep (w ∷ ws) h = nil-append (String.◌∷◌ sep (join_at sep (w ∷ ws)))

-- Joining the parts gives the text back.
pub join_at-split_at : (sep : Char) (s : String) → join_at sep (split_at sep s) ≡ s
unfolding split_at join_at
join_at-split_at sep String.[] = refl
join_at-split_at sep (String.◌∷◌ c s) = elim (Bool-cases (nat_beq (code c) (code sep))) [
  | inl at ↦
      rw (at, join_at-empty sep (split_at sep s) (length-split_at sep s), join_at-split_at sep s)
        (ap (λ d. String.◌∷◌ d s) (sym (Char-path c sep (ground arith))))
  | inr other ↦
      rw
        (
          other,
          join_at-push_letter sep c (split_at sep s) (length-split_at sep s),
          join_at-split_at sep s,
        )
        refl
]
