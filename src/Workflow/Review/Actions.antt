-- ===== src/Workflow/Review/Actions.antt =====
-- langgraph_workflows/human_review/graph.py: the action that belongs to a decision.
use dox.Prelude.{◌≡◌, refl, ◌⊎◌, ◌≢◌, false, String, eq_iff, Bool-cases, inl, inr, ◌==◌, String_eq}
use dox.Enums.{InterventionAction}
use dox.Workflow.Review.{action_of}

-- The action that belongs to a decision.
abbrev pub Means : String → InterventionAction → Type 0
Means d action =
    ((d ≡ "approve") × (action ≡ InterventionAction.allow))
    ⊎ (((d ≡ "reject") × (action ≡ InterventionAction.block_tool_call))
        ⊎ (((d ≡ "escalate") × (action ≡ InterventionAction.request_human_review))
            ⊎ ((d ≢ "approve")
                × (d ≢ "reject")
                × (d ≢ "escalate")
                × (action ≡ InterventionAction.warn))))

differs : (s t : String) → (s == t) ≡ false → s ≢ t
differs s t h e = cc ((eq_iff s t).1 e, h)

pub action_of-Means : (d : String) → Means d (action_of d)
unfolding action_of
action_of-Means d = elim (Bool-cases (d == "approve")) [
  | inl same ↦ inl ((eq_iff d "approve").0 same, rw same refl)
  | inr no_approve ↦ elim (Bool-cases (d == "reject")) [
    | inl same ↦ inr (inl ((eq_iff d "reject").0 same, rw (no_approve, same) refl))
    | inr no_reject ↦ elim (Bool-cases (d == "escalate")) [
      | inl same ↦
          inr (inr (inl ((eq_iff d "escalate").0 same, rw (no_approve, no_reject, same) refl)))
      | inr no_escalate ↦ inr (
          inr (
            inr (
              differs d "approve" no_approve,
              differs d "reject" no_reject,
              differs d "escalate" no_escalate,
              rw (no_approve, no_reject, no_escalate) refl,
            )))
    ]
  ]
]
