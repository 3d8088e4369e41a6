-- ===== src/Workflow/Graph/Walks.antt =====
-- The walks of a run through the graph.
use mylo_ware.Common.{
  ℕ, ◌<◌, ◌≤◌, ◌≡◌, ap, ◌∙◌, ◌↔◌, refl, Bool, true, false, ◌⊎◌, inl, inr, List, [], ◌∷◌, arith,
  length, Any, All, All-map_fun, ◌≢◌,
}
use mylo_ware.Workflow.Graph.{
  Node, ideation, ideation_approval, production, wait_for_videos, editing, wait_for_render,
  publish_approval, publishing, State, flag, is_over, go, key_error, next, entry,
}

-- One node that ran, and the state that it left.
pub record Visit : Type 0 where
  pub node : Node
  pub state : State

-- The nodes that ran, the last one first, from the entry on; each node may leave any state.
pub data Walk : List Visit → Type 0 where
  start : (s : State) → Walk (record { node = entry; state = s } ∷ [])
  step :
      {v : Visit} {vs : List Visit} {n : Node} (s : State)
      → Walk (v ∷ vs)
      → next v.node v.state ≡ go n
      → Walk (record { node = n; state = s } ∷ v ∷ vs)

-- A human approved the ideas, or the publication, in this visit.
abbrev pub ApprovedIdeas : Visit → Type 0
ApprovedIdeas v = (v.node ≡ ideation_approval) × (flag v.state.ideas_approved ≡ true)

abbrev pub ApprovedPublish : Visit → Type 0
ApprovedPublish v = (v.node ≡ publish_approval) × (flag v.state.publish_approved ≡ true)

-- The nodes behind the first gate, and the node behind the second.
abbrev behind_ideas : Node → Bool
behind_ideas ideation = false
behind_ideas ideation_approval = false
behind_ideas _ = true

ideas_gate :
    (m n : Node) (s : State)
    → next m s ≡ go n
    → behind_ideas n ≡ true
    → (behind_ideas m ≡ true) ⊎ ((m ≡ ideation_approval) × (flag s.ideas_approved ≡ true))
unfolding next
ideas_gate ideation n s h b = ground arith
ideas_gate ideation_approval n s h b = ground arith
ideas_gate _ n s h b = inl refl

publish_gate :
    (m : Node) (s : State)
    → next m s ≡ go publishing
    → (m ≡ publish_approval) × (flag s.publish_approved ≡ true)
unfolding next
publish_gate ideation s h = ground arith
publish_gate _ s h = ground arith

walk_ideas :
    {v : Visit} {vs : List Visit}
    → Walk (v ∷ vs)
    → behind_ideas v.node ≡ true
    → Any ApprovedIdeas vs
walk_ideas (start s) b = absurd (ground arith)
walk_ideas (step {v} {vs} {n} s w h) b = elim (ideas_gate v.node n v.state h b) [
  | inl earlier ↦ inr (walk_ideas w earlier)
  | inr here ↦ inl here
]

-- Nothing is published without both approvals: on every walk that reaches the publishing node, an
-- earlier visit of the ideation gate left the ideas approved, and an earlier visit of the publish
-- gate left the publication approved, whatever the nodes do.
pub publishing_approved :
    {v : Visit} {vs : List Visit}
    → Walk (v ∷ vs)
    → v.node ≡ publishing
    → Any ApprovedIdeas vs × Any ApprovedPublish vs
publishing_approved (start s) p = absurd (ground arith)
publishing_approved (step {v} {vs} s w h) p =
    (walk_ideas (step s w h) (ap behind_ideas p), inl (publish_gate v.node v.state (h ∙ ap go p)))

-- How far along the pipeline a node stands.
abbrev rank : Node → ℕ
rank ideation = 0
rank ideation_approval = 1
rank production = 2
rank wait_for_videos = 3
rank editing = 4
rank wait_for_render = 5
rank publish_approval = 6
rank publishing = 7

rank_grows : (m n : Node) (s : State) → next m s ≡ go n → rank m < rank n
unfolding next
rank_grows ideation n s h = ground arith
rank_grows _ n s h = ground arith

walk_rank : {v : Visit} {vs : List Visit} → Walk (v ∷ vs) → length vs ≤ rank v.node
walk_rank (start s) = omega arith
walk_rank (step {v} {vs} {n} s w h) = omega (arith, walk_rank w, rank_grows v.node n v.state h)

rank_bound : (n : Node) → rank n ≤ 7
rank_bound ideation = omega arith
rank_bound _ = omega arith

-- The nodes before stand earlier in the pipeline.
walk_earlier :
    {v : Visit} {vs : List Visit} → Walk (v ∷ vs) → All (λ u. rank u.node < rank v.node) vs
walk_earlier (start s) = tt
walk_earlier (step {v} {vs} {n} s w h) =
    let grows = rank_grows v.node n v.state h in
    (
      grows,
      All-map_fun (λ u. rank u.node < rank v.node) (λ u. rank u.node < rank n) vs
          (λ u lt. omega (arith, lt, grows)) (walk_earlier w),
    )

-- The graph has no loop: a walk that starts at its entry visits at most eight nodes, and comes to its
-- last node for the first time, whatever the nodes do. A fork from a checkpoint starts another walk.
pub walk_bounded :
    {v : Visit} {vs : List Visit}
    → Walk (v ∷ vs)
    → (length (v ∷ vs) ≤ 8) × All (λ u. u.node ≢ v.node) vs
walk_bounded {v} {vs} w = (
  omega (arith, walk_rank w, rank_bound v.node),
  All-map_fun (λ u. rank u.node < rank v.node) (λ u. u.node ≢ v.node) vs
      (λ u lt same.
        let e : rank u.node ≡ rank v.node = ap rank same in absurd (omega (arith, lt, e)))
      (walk_earlier w),
)

-- After a node, the graph has no destination exactly where the production node or the editing node
-- left a failed or rejected status: their routes return END, which their path maps do not list.
pub next-key_error_iff :
    (n : Node) (s : State)
    → (next n s ≡ key_error) ↔ (((n ≡ production) ⊎ (n ≡ editing)) × (is_over s.status ≡ true))
unfolding next
next-key_error_iff ideation s = ground arith
next-key_error_iff ideation_approval s = ground arith
next-key_error_iff production s = ground arith
next-key_error_iff wait_for_videos s = ground arith
next-key_error_iff editing s = ground arith
next-key_error_iff wait_for_render s = ground arith
next-key_error_iff publish_approval s = ground arith
next-key_error_iff publishing s = ground arith
