-- ===== src/Pregel/Output/Nested.antt =====
-- Reading and writing a field by its path (graphengine/pregel/engine.go).
use Prim.Native.Char.{Char, code}
use harness_go.Base.{
  String, ◌≡◌, refl, ap, ◌∙◌, false, Option, none, some, List, [], ◌∷◌, ◌==◌, Dict, lookup, insert,
  lookup-insert_self, insert-same, nat_beq, subst, Bool-cases, inl, inr,
}
use harness_go.Value.{Value, dict, fields, of_fields, fields-of_fields, of_fields-fields, is_nil}
use harness_go.Pregel.Output.{
  walk, set_at, descend, split_dots, push_letter, get_nested_field, set_nested_field,
}

-- No value on the way to the last part of the path is something else than a map.
abbrev OpenAt : (Dict Value → Type 0) → Option Value → Type 0
OpenAt rest none = Unit
OpenAt rest (some (dict fs)) = rest (fields fs)
OpenAt rest (some other) = ⊥

abbrev pub IsOpen : List String → Dict Value → Type 0
IsOpen [] m = Unit
IsOpen (part ∷ []) m = Unit
IsOpen (part ∷ next ∷ parts) m = OpenAt (λ sub. IsOpen (next ∷ parts) sub) (lookup part m)

walk-insert :
    (part : String) (parts : List String) (v : Value) (m : Dict Value)
    → is_nil v ≡ false
    → walk (part ∷ parts) (dict (of_fields (insert part v m))) ≡ walk parts v
unfolding walk
walk-insert part parts v m h =
    rw (fields-of_fields (insert part v m), lookup-insert_self part v m, h) refl

walk-descend :
    (set : Dict Value → Dict Value) (o : Option Value) (part : String) (parts : List String)
    (v : Value) (m : Dict Value) (P : Dict Value → Type 0)
    (ih : (sub : Dict Value) → P sub → walk parts (dict (of_fields (set sub))) ≡ v) (nothing : P [])
    → OpenAt P o
    → walk (part ∷ parts) (dict (of_fields (descend set o part m))) ≡ v
walk-descend set none part parts v m P ih nothing h =
    walk-insert part parts (dict (of_fields (set []))) m refl ∙ ih [] nothing
walk-descend set (some (dict fs)) part parts v m P ih nothing h =
    walk-insert part parts (dict (of_fields (set (fields fs)))) m refl ∙ ih (fields fs) h
walk-descend set (some _) part parts v m P ih nothing h = absurd h

IsOpen-nil : (parts : List String) → IsOpen parts []
unfolding lookup
IsOpen-nil [] = tt
IsOpen-nil (part ∷ []) = tt
IsOpen-nil (part ∷ next ∷ parts) = tt

-- A value other than nil that is set at a path is what is read there, if the way is open.
pub walk-set_at :
    (part : String) (parts : List String) (v : Value) (m : Dict Value)
    → is_nil v ≡ false
    → IsOpen (part ∷ parts) m
    → walk (part ∷ parts) (dict (of_fields (set_at (part ∷ parts) v m))) ≡ v
unfolding set_at walk
walk-set_at part [] v m h o = walk-insert part [] v m h
walk-set_at part (next ∷ parts) v m h o =
    walk-descend (λ sub. set_at (next ∷ parts) v sub) (lookup part m) part (next ∷ parts) v m
      (λ sub. IsOpen (next ∷ parts) sub) (λ sub q. walk-set_at next parts v sub h q)
      (IsOpen-nil (next ∷ parts)) o

-- A write whose way is blocked by a value that is no map changes nothing.
descend-blocked :
    (set : Dict Value → Dict Value) (o : Option Value) (part : String) (m : Dict Value)
    (P : Dict Value → Type 0) (ih : (sub : Dict Value) → ¬ P sub → set sub ≡ sub)
    → lookup part m ≡ o
    → ¬ OpenAt P o
    → descend set o part m ≡ m
descend-blocked set none part m P ih e h = absurd (h tt)
descend-blocked set (some (dict fs)) part m P ih e h =
    rw (ih (fields fs) h, of_fields-fields fs) (insert-same part (dict fs) m e)
descend-blocked set (some _) part m P ih e h = refl

pub set_at-blocked :
    (part : String) (parts : List String) (v : Value) (m : Dict Value)
    → ¬ IsOpen (part ∷ parts) m
    → set_at (part ∷ parts) v m ≡ m
unfolding set_at
set_at-blocked part [] v m h = absurd (h tt)
set_at-blocked part (next ∷ parts) v m h =
    descend-blocked (λ sub. set_at (next ∷ parts) v sub) (lookup part m) part m
      (λ sub. IsOpen (next ∷ parts) sub) (λ sub q. set_at-blocked next parts v sub q) refl h

push_letter-some :
    (c : Char) (ws : List String)
    → (first : String) × (rest : List String) × (push_letter c ws ≡ first ∷ rest)
push_letter-some c [] = (String.◌∷◌ c String.[], [], refl)
push_letter-some c (w ∷ ws) = (String.◌∷◌ c w, ws, refl)

-- a path has at least one part
split_dots-some :
    (path : String) → (first : String) × (rest : List String) × (split_dots path ≡ first ∷ rest)
unfolding split_dots
split_dots-some String.[] = ("", [], refl)
split_dots-some (String.◌∷◌ c s) = elim (Bool-cases (nat_beq (code c) b'.')) [
  | inl e ↦ ("", split_dots s, rw (e) refl)
  | inr e ↦ rw (e) (push_letter-some c (split_dots s))
]

-- reading a path in the result of a write
abbrev pub read_back : String → Option (Dict Value) → Option Value
read_back path none = none
read_back path (some m) = some (get_nested_field m path)

-- A value other than nil that is set at a path other than the root, with nothing but maps on the
-- way, is read at that path afterwards.
pub get-set_nested_field :
    (m : Dict Value) (path : String) (v : Value)
    → (path == "") ≡ false
    → is_nil v ≡ false
    → IsOpen (split_dots path) m
    → read_back path (set_nested_field m path v) ≡ some v
unfolding get_nested_field set_nested_field
get-set_nested_field m path v p h o =
    let (first, rest, e) = split_dots-some path in
    rw (p, e, p) (ap some (walk-set_at first rest v m h (subst (λ ps. IsOpen ps m) e o)))

-- A write to a path other than the root that meets a value which is no map is lost: the map is
-- left as it is, and no error is raised.
pub set_nested_field-blocked :
    (m : Dict Value) (path : String) (v : Value)
    → (path == "") ≡ false
    → ¬ IsOpen (split_dots path) m
    → set_nested_field m path v ≡ some m
unfolding set_nested_field
set_nested_field-blocked m path v p h =
    let (first, rest, e) = split_dots-some path in
    rw (p, e) (ap some (set_at-blocked first rest v m (subst (λ ps. ¬ IsOpen ps m) e h)))
