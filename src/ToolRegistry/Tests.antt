-- ===== src/ToolRegistry/Tests.antt =====
-- A concrete registry of tools (agentcore/tool_registry.go), whose tools are their names.
use harness_go.Base.{
  String, ◌≡◌, refl, true, none, some, [], ◌∷◌, lookup, insert, remove, insert_all, is_some, get_or,
  length,
}
use harness_go.ToolRegistry.{
  ToolRegistry, with_alias, with_category, new_tool_registry, register, unregister, merge,
  lookup_tool, lookup_by_category, add_to_categories, append_all, without_target, without_name,
  without_member, tools_named,
}
use harness_go.ToolRegistry.Resolved.History.{
  made_new, made_register, made_merge, made_unregister, Made-found,
}

abbrev name_of : String → String
name_of t = t

abbrev files : ToolRegistry String
files = register name_of "write" (with_category ("fs" ∷ []) ∷ []) (
    register name_of "read" (with_alias "cat" ∷ with_category ("fs" ∷ "safe" ∷ []) ∷ [])
      new_tool_registry)

abbrev shell : ToolRegistry String
shell =
    register name_of "bash" (with_alias "sh" ∷ with_category ("exec" ∷ "fs" ∷ []) ∷ [])
      new_tool_registry

abbrev merged : ToolRegistry String
merged = unregister "read" (merge files shell)

merged-tools :
    lookup_tool merged "sh" ≡ some "bash"
    × lookup_tool merged "cat" ≡ none
    × lookup_by_category merged "fs" ≡ "write" ∷ "bash" ∷ []
    × lookup_by_category merged "safe" ≡ []
unfolding register unregister merge lookup_tool lookup_by_category add_to_categories append_all
    without_target without_name without_member tools_named lookup insert remove insert_all
merged-tools = (refl, refl, refl, refl)

Made-found_example :
    ((alias : String)
      → is_some (lookup alias merged.aliases) ≡ true
      → is_some (lookup_tool merged alias) ≡ true)
    × ((cat : String)
        → length (lookup_by_category merged cat) ≡ length (get_or (lookup cat merged.category) []))
Made-found_example = Made-found name_of merged (
    made_unregister "read" (merge files shell) (
      made_merge files shell (made_register "write" _ _ (made_register "read" _ _ made_new))
        (made_register "bash" _ _ made_new)))
