-- ===== src/ToolRegistry.antt =====
-- agentcore/tool_registry.go: ToolRegistry, with its lock left out. Of a tool only its name is used.
pub mod Resolved
pub mod Tests
use harness_go.Base.{
  String, Bool, not, Option, none, some, List, [], ◌∷◌, ◌++◌, ◌==◌, Dict, lookup, insert, remove,
  insert_all, get_or, or_else, if◌then◌else◌,
}

pub record ToolRegistry (T : Type 0) : Type 0 where
  pub tools : Dict T
  pub aliases : Dict String
  pub category : Dict (List String)

-- WithAlias and WithCategory
pub data RegistryOption : Type 0 where
  with_alias : String → RegistryOption
  with_category : List String → RegistryOption

unfoldable pub add_to_categories : String → List String → Dict (List String) → Dict (List String)
unfolding lookup insert
add_to_categories name [] m = m
add_to_categories name (cat ∷ cats) m =
    add_to_categories name cats (insert cat (get_or (lookup cat m) [] ++ name ∷ []) m)

-- `append` of the names of each category
unfoldable pub append_all : Dict (List String) → Dict (List String) → Dict (List String)
unfolding lookup insert
append_all [] m = m
append_all ((cat, names) ∷ other) m =
    append_all other (insert cat (get_or (lookup cat m) [] ++ names) m)

-- the loops of Unregister
unfoldable pub without_target : String → Dict String → Dict String
without_target name [] = []
without_target name ((alias, canonical) ∷ m) =
    let rest = without_target name m in
    if canonical == name then rest else (alias, canonical) ∷ rest

unfoldable pub without_name : String → List String → List String
without_name name [] = []
without_name name (n ∷ ns) =
    let rest = without_name name ns in if not (n == name) then n ∷ rest else rest

abbrev pub keep_category : String → List String → Dict (List String) → Dict (List String)
keep_category cat [] rest = rest
keep_category cat (n ∷ ns) rest = (cat, n ∷ ns) ∷ rest

unfoldable pub without_member : String → Dict (List String) → Dict (List String)
unfolding without_name
without_member name [] = []
without_member name ((cat, names) ∷ m) =
    keep_category cat (without_name name names) (without_member name m)

module _ {T : Type 0} where
  -- NewToolRegistry
  abbrev pub new_tool_registry : ToolRegistry T
  new_tool_registry = record { tools = []; aliases = []; category = [] }

  abbrev pub apply_option : String → RegistryOption → ToolRegistry T → ToolRegistry T
  apply_option name (with_alias alias) r = record r { aliases = insert alias name r.aliases }
  apply_option name (with_category cats) r = record r {
    category = add_to_categories name cats r.category;
  }

  abbrev pub apply_options : String → List RegistryOption → ToolRegistry T → ToolRegistry T
  apply_options name [] r = r
  apply_options name (o ∷ os) r = apply_options name os (apply_option name o r)

  -- Register; the first argument stands for Tool.Name.
  unfoldable pub register : (T → String) → T → List RegistryOption → ToolRegistry T → ToolRegistry T
  unfolding insert
  register name_of tool opts r =
      let name = name_of tool in
      apply_options name opts (record r { tools = insert name tool r.tools })

  abbrev pub canonical_tool : Option String → Dict T → Option T
  canonical_tool none tools = none
  canonical_tool (some canonical) tools = lookup canonical tools

  -- Lookup; MustLookup panics where it gives none.
  unfoldable pub lookup_tool : ToolRegistry T → String → Option T
  unfolding lookup
  lookup_tool r name =
      or_else (lookup name r.tools) (canonical_tool (lookup name r.aliases) r.tools)

  abbrev pub and_tool : Option T → List T → List T
  and_tool none rest = rest
  and_tool (some t) rest = t ∷ rest

  unfoldable pub tools_named : Dict T → List String → List T
  unfolding lookup
  tools_named tools [] = []
  tools_named tools (n ∷ ns) = and_tool (lookup n tools) (tools_named tools ns)

  -- LookupByCategory
  unfoldable pub lookup_by_category : ToolRegistry T → String → List T
  unfolding lookup tools_named
  lookup_by_category r category = tools_named r.tools (get_or (lookup category r.category) [])

  -- AllTools and ToSlice
  unfoldable pub all_tools : Dict T → List T
  all_tools [] = []
  all_tools ((name, t) ∷ tools) = t ∷ all_tools tools

  -- Merge, of another registry than the one itself
  unfoldable pub merge : ToolRegistry T → ToolRegistry T → ToolRegistry T
  unfolding insert_all append_all
  merge r other = record {
    tools = insert_all other.tools r.tools;
    aliases = insert_all other.aliases r.aliases;
    category = append_all other.category r.category;
  }

  unfoldable pub filter_tools : (T → String) → (T → Bool) → List T → ToolRegistry T → ToolRegistry T
  unfolding register
  filter_tools name_of fn [] result = result
  filter_tools name_of fn (t ∷ ts) result =
      filter_tools name_of fn ts (if fn t then register name_of t [] result else result)

  -- Filter
  unfoldable pub filter : (T → String) → (T → Bool) → ToolRegistry T → ToolRegistry T
  unfolding filter_tools all_tools
  filter name_of fn r = filter_tools name_of fn (all_tools r.tools) new_tool_registry

  -- Unregister
  unfoldable pub unregister : String → ToolRegistry T → ToolRegistry T
  unfolding remove without_target without_member
  unregister name r = record {
    tools = remove name r.tools;
    aliases = without_target name r.aliases;
    category = without_member name r.category;
  }
