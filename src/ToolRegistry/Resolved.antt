-- ===== src/ToolRegistry/Resolved.antt =====
-- No alias and no category names a tool that is not registered (agentcore/tool_registry.go).
pub mod Steps
pub mod History
use harness_go.Base.{
  String, ◌≡◌, sym, ap, subst, ◌∙◌, some_inj, Bool, true, some, List, [], ◌∷◌, ◌++◌, arith, ◌==◌,
  Dict, lookup, insert, insert_all, get_or, is_some, if◌then◌else◌, Bool-cases, Option-cases, inl,
  inr,
}
use harness_go.ToolRegistry.{ToolRegistry, add_to_categories, append_all}

-- every value of a dictionary has the property
Every {ℓ} : {V : Type ℓ} → (V → Type 0) → Dict V → Type 0
Every P [] = Unit
Every P ((k, v) ∷ m) = P v × Every P m

module _ {ℓ} {V : Type ℓ} where
  Every-insert :
      (P : V → Type 0) (k : String) (v : V) (m : Dict V) → P v → Every P m → Every P (insert k v m)
  unfolding Every insert
  Every-insert P k v [] p all = (p, tt)
  Every-insert P k v ((j, w) ∷ m) p all = elim (Bool-cases (j == k)) [
    | inl same ↦ rw same (p, all.1)
    | inr other ↦ rw other (all.0, Every-insert P k v m p all.1)
  ]

  Every-insert_all :
      (P : V → Type 0) (new m : Dict V) → Every P new → Every P m → Every P (insert_all new m)
  unfolding Every insert_all
  Every-insert_all P [] m added all = all
  Every-insert_all P ((k, v) ∷ new) m added all =
      Every-insert_all P new (insert k v m) added.1 (Every-insert P k v m added.0 all)

  Every-weaken : (P Q : V → Type 0) (m : Dict V) → ((v : V) → P v → Q v) → Every P m → Every Q m
  unfolding Every
  Every-weaken P Q [] f all = tt
  Every-weaken P Q ((k, v) ∷ m) f all = (f v all.0, Every-weaken P Q m f all.1)

  Every-lookup :
      (P : V → Type 0) (k : String) (v : V) (m : Dict V) → Every P m → lookup k m ≡ some v → P v
  unfolding Every lookup
  Every-lookup P k v [] all h = absurd (ground (arith, h))
  Every-lookup P k v ((j, w) ∷ m) all h =
      let chosen = λ (b : Bool). if b then some w else lookup k m in
      elim (Bool-cases (j == k)) [
        | inl same ↦ subst P (some_inj (sym (ap chosen same) ∙ h)) all.0
        | inr other ↦ Every-lookup P k v m all.1 (sym (ap chosen other) ∙ h)
      ]

module _ {T : Type 0} where
  abbrev Known : Dict T → String → Type 0
  Known tools name = is_some (lookup name tools) ≡ true

  EachKnown : Dict T → List String → Type 0
  EachKnown tools [] = Unit
  EachKnown tools (n ∷ ns) = Known tools n × EachKnown tools ns

  EachKnown-append :
      (tools : Dict T) (ns more : List String)
      → EachKnown tools ns
      → EachKnown tools more
      → EachKnown tools (ns ++ more)
  unfolding EachKnown
  EachKnown-append tools [] more k l = l
  EachKnown-append tools (n ∷ ns) more k l = (k.0, EachKnown-append tools ns more k.1 l)

  EachKnown-weaken :
      (tools wider : Dict T) (ns : List String)
      → ((n : String) → Known tools n → Known wider n)
      → EachKnown tools ns
      → EachKnown wider ns
  unfolding EachKnown
  EachKnown-weaken tools wider [] f k = tt
  EachKnown-weaken tools wider (n ∷ ns) f k = (f n k.0, EachKnown-weaken tools wider ns f k.1)

  -- the names that are filed for a category, or none
  EachKnown-filed :
      (tools : Dict T) (cat : String) (m : Dict (List String))
      → Every (EachKnown tools) m
      → EachKnown tools (get_or (lookup cat m) [])
  unfolding EachKnown
  EachKnown-filed tools cat m all = elim (Option-cases (lookup cat m)) [
    | inl absent ↦ rw absent tt
    | inr (ns, filed) ↦ rw filed (Every-lookup (EachKnown tools) cat ns m all filed)
  ]

  -- Every alias and every category names registered tools only.
  record Resolved (r : ToolRegistry T) : Type 0 where
    aliases : Every (Known r.tools) r.aliases
    category : Every (EachKnown r.tools) r.category

  add_to_categories-Every :
      (tools : Dict T) (name : String) (cats : List String) (m : Dict (List String))
      → Known tools name
      → Every (EachKnown tools) m
      → Every (EachKnown tools) (add_to_categories name cats m)
  unfolding add_to_categories EachKnown
  add_to_categories-Every tools name [] m k all = all
  add_to_categories-Every tools name (cat ∷ cats) m k all =
      add_to_categories-Every tools name cats _ k (
        Every-insert (EachKnown tools) cat _ m
          (EachKnown-append tools _ (name ∷ []) (EachKnown-filed tools cat m all) (k, tt)) all)

  append_all-Every :
      (tools : Dict T) (other m : Dict (List String))
      → Every (EachKnown tools) other
      → Every (EachKnown tools) m
      → Every (EachKnown tools) (append_all other m)
  unfolding append_all Every
  append_all-Every tools [] m added all = all
  append_all-Every tools ((cat, names) ∷ other) m added all =
      append_all-Every tools other _ added.1 (
        Every-insert (EachKnown tools) cat _ m
          (EachKnown-append tools _ names (EachKnown-filed tools cat m all) added.0) all)

  Resolved-wider :
      (r : ToolRegistry T) (wider : Dict T)
      → ((n : String) → Known r.tools n → Known wider n)
      → Resolved r
      → Resolved (record r { tools = wider })
  Resolved-wider r wider f h = record {
    aliases = Every-weaken (Known r.tools) (Known wider) r.aliases f h.aliases;
    category =
        Every-weaken (EachKnown r.tools) (EachKnown wider) r.category
          (λ ns. EachKnown-weaken r.tools wider ns f) h.category;
  }
