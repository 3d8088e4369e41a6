-- ===== src/Workflow/Graph.antt =====
-- The graph of src/myloware/workflows/langgraph/graph.py: its nodes, its routes, and the walks that it
-- allows. The state is that of src/myloware/workflows/langgraph/state.py, as far as a route reads it;
-- what a node does to the state is left open.
pub mod Walks
use mylo_ware.Common.{
  ℕ, String, Bool, true, false, ◌&&◌, ◌||◌, Option, none, some, List, [], ◌∷◌, ◌==◌, str_eq,
  if◌then◌else◌,
}

pub data Node : Type 0 where
  ideation ideation_approval production wait_for_videos : Node
  editing wait_for_render publish_approval publishing : Node

-- The keys that the routes read; `none` is a key that is not set, or None.
pub record State : Type 0 where
  pub ideas_approved : Option Bool
  pub video_clips : Option (List String)
  pub production_complete : Option Bool
  pub final_video_url : Option String
  pub publish_approved : Option Bool
  pub status : Option String

-- What a route returns: a node's name or END.
pub data Route : Type 0 where
  to : Node → Route
  end : Route

-- `state.get(key)` as a truth value.
abbrev pub flag : Option Bool → Bool
flag none = false
flag (some b) = b

abbrev pub some_items : Option (List String) → Bool
some_items none = false
some_items (some []) = false
some_items (some (x ∷ xs)) = true

abbrev pub some_text : Option String → Bool
some_text none = false
some_text (some s) = if str_eq s "" then false else true

-- `state.get("status") in {FAILED, REJECTED}`
unfoldable pub is_over : Option String → Bool
is_over none = false
is_over (some s) = str_eq s "failed" || str_eq s "rejected"

unfoldable pub route_after_ideation_approval : State → Route
route_after_ideation_approval s = if flag s.ideas_approved then to production else end

unfoldable pub route_after_publish_approval : State → Route
route_after_publish_approval s = if flag s.publish_approved then to publishing else end

unfoldable pub route_after_publishing : State → Route
route_after_publishing s = end

unfoldable pub route_after_production : State → Route
unfolding is_over
route_after_production s =
    if is_over s.status
    then end
    else if some_items s.video_clips && flag s.production_complete
    then to editing
    else to wait_for_videos

unfoldable pub route_after_editing : State → Route
unfolding is_over
route_after_editing s =
    if is_over s.status
    then end
    else if some_text s.final_video_url
    then to publish_approval
    else to wait_for_render

-- The path map of a conditional edge: the destination of what the route returned. A route that the
-- map does not list has no destination, and langgraph raises KeyError.
pub data Next : Type 0 where
  go : Node → Next
  finish : Next
  key_error : Next

abbrev editing_ends : Route → Next
editing_ends (to publish_approval) = go publish_approval
editing_ends (to wait_for_render) = go wait_for_render
editing_ends _ = key_error

abbrev production_ends : Route → Next
production_ends (to editing) = go editing
production_ends (to wait_for_videos) = go wait_for_videos
production_ends _ = key_error

abbrev ideation_approval_ends : Route → Next
ideation_approval_ends (to production) = go production
ideation_approval_ends end = finish
ideation_approval_ends _ = key_error

abbrev publish_approval_ends : Route → Next
publish_approval_ends (to publishing) = go publishing
publish_approval_ends end = finish
publish_approval_ends _ = key_error

abbrev publishing_ends : Route → Next
publishing_ends end = finish
publishing_ends _ = key_error

-- `build_video_workflow`: where a run goes on after a node, in the state that the node left.
unfoldable pub next : Node → State → Next
unfolding route_after_ideation_approval route_after_publish_approval route_after_publishing
    route_after_production route_after_editing
next ideation s = go ideation_approval
next ideation_approval s = ideation_approval_ends (route_after_ideation_approval s)
next production s = production_ends (route_after_production s)
next wait_for_videos s = go editing
next editing s = editing_ends (route_after_editing s)
next wait_for_render s = go publish_approval
next publish_approval s = publish_approval_ends (route_after_publish_approval s)
next publishing s = publishing_ends (route_after_publishing s)

-- The node behind START.
abbrev pub entry : Node
entry = ideation
