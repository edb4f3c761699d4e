-- ===== src/ToolRegistry/Resolved/History.antt =====
-- The registries of tools that the methods make (agentcore/tool_registry.go).
use harness_go.Base.{
  String, ◌≡◌, refl, Bool, true, List, [], ◌∷◌, arith, Dict, lookup, get_or, is_some, length,
  Option-cases, inl, inr,
}
use harness_go.ToolRegistry.{
  ToolRegistry, RegistryOption, new_tool_registry, register, lookup_tool, tools_named,
  lookup_by_category, all_tools, merge, filter, unregister,
}
use harness_go.ToolRegistry.Resolved.{Every-lookup, Known, EachKnown, EachKnown-filed, Resolved}
use harness_go.ToolRegistry.Resolved.Steps.{
  register-Resolved, merge-Resolved, filter_tools-Resolved, new-Resolved, unregister-Resolved,
}

module _ {T : Type 0} where
  -- the registries that the methods make
  pub data Made (name_of : T → String) : ToolRegistry T → Type 0 where
    made_new : Made name_of new_tool_registry
    made_register :
        (t : T) (opts : List RegistryOption) (r : ToolRegistry T)
        → Made name_of r
        → Made name_of (register name_of t opts r)
    made_merge :
        (r other : ToolRegistry T)
        → Made name_of r
        → Made name_of other
        → Made name_of (merge r other)
    made_filter :
        (fn : T → Bool) (r : ToolRegistry T) → Made name_of r → Made name_of (filter name_of fn r)
    made_unregister :
        (name : String) (r : ToolRegistry T) → Made name_of r → Made name_of (unregister name r)

  Made-Resolved : (name_of : T → String) (r : ToolRegistry T) → Made name_of r → Resolved r
  unfolding filter
  Made-Resolved name_of r made_new = new-Resolved
  Made-Resolved name_of r (made_register t opts s m) =
      register-Resolved name_of t opts s (Made-Resolved name_of s m)
  Made-Resolved name_of r (made_merge s other m n) =
      merge-Resolved s other (Made-Resolved name_of s m) (Made-Resolved name_of other n)
  Made-Resolved name_of r (made_filter fn s m) =
      filter_tools-Resolved name_of fn (all_tools s.tools) new_tool_registry new-Resolved
  Made-Resolved name_of r (made_unregister name s m) =
      unregister-Resolved name s (Made-Resolved name_of s m)

  canonical_known :
      (r : ToolRegistry T) (alias : String)
      → Resolved r
      → is_some (lookup alias r.aliases) ≡ true
      → is_some (lookup_tool r alias) ≡ true
  unfolding lookup_tool
  canonical_known r alias h k = elim (Option-cases (lookup alias r.tools)) [
    | inr (t, named) ↦ rw named refl
    | inl unnamed ↦ elim (Option-cases (lookup alias r.aliases)) [
      | inl absent ↦ absurd (cc)
      | inr (n, filed) ↦
          rw (unnamed, filed) (Every-lookup (Known r.tools) alias n r.aliases h.aliases filed)
    ]
  ]

  length-tools_named :
      (tools : Dict T) (ns : List String)
      → EachKnown tools ns
      → length (tools_named tools ns) ≡ length ns
  unfolding tools_named EachKnown
  length-tools_named tools [] k = refl
  length-tools_named tools (n ∷ ns) k = elim (Option-cases (lookup n tools)) [
    | inl absent ↦ let known = k.0 in absurd (cc)
    | inr (t, here) ↦ rw here (omega (arith, length-tools_named tools ns k.1))
  ]

  -- In every registry that Register, Merge, Filter and Unregister make from new ones, an alias is
  -- found by Lookup, and LookupByCategory gives as many tools as there are names filed for the
  -- category: neither names a tool that is not registered.
  pub Made-found :
      (name_of : T → String) (r : ToolRegistry T)
      → Made name_of r
      → ((alias : String)
          → is_some (lookup alias r.aliases) ≡ true
          → is_some (lookup_tool r alias) ≡ true)
        × ((cat : String)
            → length (lookup_by_category r cat) ≡ length (get_or (lookup cat r.category) []))
  unfolding lookup_by_category
  Made-found name_of r m =
      let h = Made-Resolved name_of r m in
      (
        λ alias. canonical_known r alias h,
        λ cat. length-tools_named r.tools _ (EachKnown-filed r.tools cat r.category h.category),
      )
