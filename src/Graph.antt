-- ===== src/Graph.antt =====
-- graphengine/graph/graph.go: the graph and the methods that build it. The schemas of the state are
-- read by reflection and are left out; so are the tags and the metadata of a node.
pub mod Reach
pub mod Inline
mod Tests
use harness_go.Base.{
  ℕ, String, Bool, not, ◌&&◌, ◌||◌, Option, none, some, List, [], ◌∷◌, ◌++◌, ◌==◌, Dict, lookup,
  insert, is_some, elem, if◌then◌else◌,
}
use harness_go.Value.{Value}
use harness_go.Errors.{Err, node_not_found, Result}
use harness_go.Channels.Channel.{Channel, Reducer, new_reducer_channel, with_key}
use harness_go.Pregel.Retry.{RetryPolicy, Answer}

-- graphengine/constants/constants.go
abbrev pub end_node : String
end_node = "__end__"

abbrev pub start_node : String
start_node = "__start__"

-- A node function is code of the graph's author: what it answers may depend on the step and the
-- attempt of the call as well as on the state that it is given.
abbrev pub NodeFunc : Type 0
NodeFunc = ℕ → ℕ → Value → Answer

pub record FieldMapping : Type 0 where
  pub from : String
  pub to : String

pub record Node : Type 0 where
  pub name : String
  pub function : Option NodeFunc
  pub triggers : List String
  pub writes : List String
  pub retry_policy : Option RetryPolicy
  pub field_mapping : List FieldMapping

pub record Edge : Type 0 where
  pub from : String
  pub to : String

pub record DataEdge : Type 0 where
  pub from : String
  pub to : String
  pub mapping : List FieldMapping

-- The condition is the author's code, called with no context.
pub record ConditionalEdge : Type 0 where
  pub from : String
  pub condition : Value → Result Value
  pub mapping : Dict String

pub record Branch : Type 0 where
  pub from : String
  pub condition : Value → Result Value
  pub then_targets : Value → List String

pub data NodeTriggerMode : Type 0 where
  any_predecessor all_predecessor : NodeTriggerMode

pub record StateGraph : Type 0 where
  pub nodes : Dict Node
  pub edges : List Edge
  pub data_edges : List DataEdge
  pub conditional_edges : List ConditionalEdge
  pub branches : List Branch
  pub entry_point : String
  pub finish_points : List String
  pub channels : Dict Channel
  pub reducers : Dict Reducer
  pub node_trigger_mode : NodeTriggerMode

unfoldable pub new_state_graph : StateGraph
new_state_graph = record {
  nodes = [];
  edges = [];
  data_edges = [];
  conditional_edges = [];
  branches = [];
  entry_point = "";
  finish_points = [];
  channels = [];
  reducers = [];
  node_trigger_mode = any_predecessor;
}

abbrev pub plain_node : String → Option NodeFunc → Node
plain_node name fn = record {
  name = name;
  function = fn;
  triggers = [];
  writes = [];
  retry_policy = none;
  field_mapping = [];
}

unfoldable pub add_node : StateGraph → String → Option NodeFunc → StateGraph
unfolding insert
add_node g name fn = record g { nodes = insert name (plain_node name fn) g.nodes }

-- whether a name is that of a node, or the given virtual one
unfoldable pub has_node : StateGraph → String → String → Bool
unfolding lookup
has_node g virtual name = is_some (lookup name g.nodes) || name == virtual

-- a method that may fail: the graph as it is left, and the error
abbrev pub Outcome : Type 0
Outcome = StateGraph × Option Err

unfoldable pub add_edge : StateGraph → String → String → Outcome
unfolding has_node elem
add_edge g from to =
    if not (has_node g start_node from)
    then (g, some (node_not_found from))
    else if not (has_node g end_node to)
    then (g, some (node_not_found to))
    else (
      record g {
        edges = g.edges ++ record { from = from; to = to } ∷ [];
        entry_point = if from == start_node then to else g.entry_point;
        finish_points =
            if to == end_node && not (elem from g.finish_points)
            then g.finish_points ++ from ∷ []
            else g.finish_points;
      },
      none,
    )

-- the loop that checks the targets of a mapping: the first one that is not a node
unfoldable pub missing_target : StateGraph → Dict String → Option String
unfolding has_node
missing_target g [] = none
missing_target g ((k, target) ∷ mapping) =
    let rest = missing_target g mapping in if has_node g end_node target then rest else some target

abbrev add_checked : StateGraph → ConditionalEdge → Option String → Outcome
add_checked g e none = (record g { conditional_edges = g.conditional_edges ++ e ∷ [] }, none)
add_checked g e (some target) = (g, some (node_not_found target))

unfoldable pub add_conditional_edges :
    StateGraph → String → (Value → Result Value) → Dict String → Outcome
unfolding missing_target lookup
add_conditional_edges g from condition mapping =
    if is_some (lookup from g.nodes)
    then add_checked g (record { from = from; condition = condition; mapping = mapping })
        (missing_target g mapping)
    else (g, some (node_not_found from))

unfoldable pub add_branch :
    StateGraph → String → (Value → Result Value) → (Value → List String) → Outcome
unfolding lookup
add_branch g from condition targets =
    if is_some (lookup from g.nodes)
    then (
      record g {
        branches =
            g.branches
            ++ record { from = from; condition = condition; then_targets = targets } ∷ [];
      },
      none,
    )
    else (g, some (node_not_found from))

unfoldable pub add_data_edge : StateGraph → String → String → List FieldMapping → Outcome
unfolding has_node
add_data_edge g from to mappings =
    if not (has_node g start_node from)
    then (g, some (node_not_found from))
    else if not (has_node g end_node to)
    then (g, some (node_not_found to))
    else (
      record g {
        data_edges = g.data_edges ++ record { from = from; to = to; mapping = mappings } ∷ [];
      },
      none,
    )

unfoldable pub set_entry_point : StateGraph → String → Outcome
unfolding lookup
set_entry_point g node =
    if is_some (lookup node g.nodes)
    then (record g { entry_point = node }, none)
    else (g, some (node_not_found node))

unfoldable pub set_finish_point : StateGraph → String → Outcome
unfolding lookup
set_finish_point g node =
    if is_some (lookup node g.nodes)
    then (record g { finish_points = g.finish_points ++ node ∷ [] }, none)
    else (g, some (node_not_found node))

unfoldable pub add_channel : StateGraph → String → Channel → StateGraph
unfolding insert with_key
add_channel g name c = record g { channels = insert name (with_key c name) g.channels }

abbrev wrapped_channels : String → Reducer → Option Channel → Dict Channel → Dict Channel
wrapped_channels name f none m = m
wrapped_channels name f (some c) m = insert name (new_reducer_channel c f) m

unfoldable pub set_reducer : StateGraph → String → Reducer → StateGraph
unfolding insert lookup new_reducer_channel
set_reducer g name f = record g {
  channels = wrapped_channels name f (lookup name g.channels) g.channels;
  reducers = insert name f g.reducers;
}

unfoldable pub add_channel_with_reducer :
    StateGraph → String → Channel → Option Reducer → StateGraph
unfolding insert with_key new_reducer_channel
add_channel_with_reducer g name c none = record g {
  channels = insert name (with_key c name) g.channels;
}
add_channel_with_reducer g name c (some f) = record g {
  channels = insert name (new_reducer_channel (with_key c name) f) g.channels;
  reducers = insert name f g.reducers;
}
