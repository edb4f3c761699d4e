-- ===== src/ToolRegistry/Resolved/Steps.antt =====
-- Each method of a registry of tools keeps its names resolved (agentcore/tool_registry.go).
use harness_go.Base.{
  String, ◌≡◌, refl, sym, ap, ◌∙◌, Bool, false, some, List, [], ◌∷◌, arith, ◌==◌, eq_iff, eq_refl,
  Dict, lookup, insert, remove, insert_all, is_some, lookup-insert, lookup-remove, if◌then◌else◌,
  Bool-cases, inl, inr,
}
use harness_go.ToolRegistry.{
  ToolRegistry, RegistryOption, with_alias, with_category, without_target, without_name,
  keep_category, without_member, new_tool_registry, apply_option, apply_options, register, merge,
  filter_tools, unregister,
}
use harness_go.ToolRegistry.Resolved.{
  Every, Every-insert, Every-insert_all, Known, EachKnown, Resolved, add_to_categories-Every,
  append_all-Every, Resolved-wider,
}

module _ {T : Type 0} where
  apply_option-Resolved :
      (name : String) (o : RegistryOption) (r : ToolRegistry T)
      → Known r.tools name
      → Resolved r
      → Resolved (apply_option name o r)
  apply_option-Resolved name (with_alias alias) r k h = record {
    aliases = Every-insert (Known r.tools) alias name r.aliases k h.aliases;
    category = h.category;
  }
  apply_option-Resolved name (with_category cats) r k h = record {
    aliases = h.aliases;
    category = add_to_categories-Every r.tools name cats r.category k h.category;
  }

  apply_option-tools :
      (name : String) (o : RegistryOption) (r : ToolRegistry T)
      → (apply_option name o r).tools ≡ r.tools
  apply_option-tools name (with_alias alias) r = refl
  apply_option-tools name (with_category cats) r = refl

  apply_options-Resolved :
      (name : String) (os : List RegistryOption) (r : ToolRegistry T)
      → Known r.tools name
      → Resolved r
      → Resolved (apply_options name os r)
  apply_options-Resolved name [] r k h = h
  apply_options-Resolved name (o ∷ os) r k h =
      apply_options-Resolved name os (apply_option name o r) (rw (apply_option-tools name o r) k)
        (apply_option-Resolved name o r k h)

  Known-insert :
      (tools : Dict T) (name n : String) (t : T) → Known tools n → Known (insert name t tools) n
  Known-insert tools name n t k = rw (lookup-insert name n t tools) (ground (arith, k))

  Known-insert_self : (tools : Dict T) (name : String) (t : T) → Known (insert name t tools) name
  Known-insert_self tools name t = rw (lookup-insert name name t tools, eq_refl name) refl

  pub register-Resolved :
      (name_of : T → String) (t : T) (os : List RegistryOption) (r : ToolRegistry T)
      → Resolved r
      → Resolved (register name_of t os r)
  unfolding register
  register-Resolved name_of t os r h =
      let name = name_of t in
      let tools = insert name t r.tools in
      apply_options-Resolved name os (record r { tools = tools }) (Known-insert_self r.tools name t)
        (Resolved-wider r tools (λ n. Known-insert r.tools name n t) h)

  pub new-Resolved : Resolved {T = T} new_tool_registry
  unfolding Every
  new-Resolved = record { aliases = tt; category = tt }

  pub filter_tools-Resolved :
      (name_of : T → String) (fn : T → Bool) (ts : List T) (r : ToolRegistry T)
      → Resolved r
      → Resolved (filter_tools name_of fn ts r)
  unfolding filter_tools
  filter_tools-Resolved name_of fn [] r h = h
  filter_tools-Resolved name_of fn (t ∷ ts) r h = elim (Bool-cases (fn t)) [
    | inl kept ↦ rw kept (
        filter_tools-Resolved name_of fn ts (register name_of t [] r)
          (register-Resolved name_of t [] r h))
    | inr dropped ↦ rw dropped (filter_tools-Resolved name_of fn ts r h)
  ]

  Known-insert_all_old :
      (new tools : Dict T) (n : String) → Known tools n → Known (insert_all new tools) n
  unfolding insert_all
  Known-insert_all_old [] tools n k = k
  Known-insert_all_old ((name, t) ∷ new) tools n k =
      Known-insert_all_old new (insert name t tools) n (Known-insert tools name n t k)

  Known-insert_all_new :
      (new tools : Dict T) (n : String) → Known new n → Known (insert_all new tools) n
  unfolding insert_all lookup
  Known-insert_all_new [] tools n k = absurd (ground (arith, k))
  Known-insert_all_new ((name, t) ∷ new) tools n k = elim (Bool-cases (name == n)) [
    | inl same ↦
        Known-insert_all_old new (insert name t tools) n
          (rw (lookup-insert name n t tools, same) refl)
    | inr other ↦
        Known-insert_all_new new (insert name t tools) n
          (sym (ap (λ (b : Bool). is_some (if b then some t else lookup n new)) other) ∙ k)
  ]

  pub merge-Resolved :
      (r other : ToolRegistry T) → Resolved r → Resolved other → Resolved (merge r other)
  unfolding merge
  merge-Resolved r other h k =
      let tools = insert_all other.tools r.tools in
      let mine = Resolved-wider r tools (Known-insert_all_old other.tools r.tools) h in
      let theirs = Resolved-wider other tools (Known-insert_all_new other.tools r.tools) k in
      record {
        aliases =
            Every-insert_all (Known tools) other.aliases r.aliases theirs.aliases mine.aliases;
        category = append_all-Every tools other.category r.category theirs.category mine.category;
      }

  Known-remove :
      (tools : Dict T) (name n : String)
      → (n == name) ≡ false
      → Known tools n
      → Known (remove name tools) n
  Known-remove tools name n ne k =
      rw (lookup-remove name n tools) (ground (arith, k, ne, eq_iff name n, eq_iff n name))

  without_target-Every :
      (tools : Dict T) (name : String) (m : Dict String)
      → Every (Known tools) m
      → Every (Known (remove name tools)) (without_target name m)
  unfolding without_target Every
  without_target-Every tools name [] all = tt
  without_target-Every tools name ((alias, n) ∷ m) all = elim (Bool-cases (n == name)) [
    | inl gone ↦ rw gone (without_target-Every tools name m all.1)
    | inr stays ↦
        rw stays (Known-remove tools name n stays all.0, without_target-Every tools name m all.1)
  ]

  without_name-EachKnown :
      (tools : Dict T) (name : String) (ns : List String)
      → EachKnown tools ns
      → EachKnown (remove name tools) (without_name name ns)
  unfolding without_name EachKnown
  without_name-EachKnown tools name [] k = tt
  without_name-EachKnown tools name (n ∷ ns) k = elim (Bool-cases (n == name)) [
    | inl gone ↦ rw gone (without_name-EachKnown tools name ns k.1)
    | inr stays ↦
        rw stays (Known-remove tools name n stays k.0, without_name-EachKnown tools name ns k.1)
  ]

  keep_category-Every :
      (tools : Dict T) (cat : String) (ns : List String) (rest : Dict (List String))
      → EachKnown tools ns
      → Every (EachKnown tools) rest
      → Every (EachKnown tools) (keep_category cat ns rest)
  unfolding Every
  keep_category-Every tools cat [] rest k all = all
  keep_category-Every tools cat (n ∷ ns) rest k all = (k, all)

  without_member-Every :
      (tools : Dict T) (name : String) (m : Dict (List String))
      → Every (EachKnown tools) m
      → Every (EachKnown (remove name tools)) (without_member name m)
  unfolding without_member Every
  without_member-Every tools name [] all = tt
  without_member-Every tools name ((cat, ns) ∷ m) all =
      keep_category-Every (remove name tools) cat (without_name name ns) _
        (without_name-EachKnown tools name ns all.0) (without_member-Every tools name m all.1)

  pub unregister-Resolved :
      (name : String) (r : ToolRegistry T) → Resolved r → Resolved (unregister name r)
  unfolding unregister
  unregister-Resolved name r h = record {
    aliases = without_target-Every r.tools name r.aliases h.aliases;
    category = without_member-Every r.tools name r.category h.category;
  }
