-- ===== src/Workflow.antt =====
-- langgraph_workflows: a compiled graph as its builder declares it. A node reads the state and merges
-- its update into it, and the edge that leaves it names the next node, or END. LangGraph, which runs
-- the nodes one after the other, is not code of the repository: a run is any chain of such steps.
pub mod Runs
pub mod Response
pub mod Review
pub mod Replay
pub mod Analysis
mod Tests
mod EventTests
use dox.Prelude.{
  ℕ, zero, suc, ◌<◌, ◌≡◌, refl, sym, ◌∙◌, ap, Option, none, some, arith, ◌⊎◌, inl, inr,
  Option-cases,
}

module _ (Node S : Type 0) where
  -- `next` is the route after a node has acted; `none` is END.
  pub record Graph : Type 0 where
    pub start : Node
    pub act : Node → S → S
    pub next : Node → S → Option Node

  -- The node that runs next, and the state.
  abbrev pub Config : Type 0
  Config = Option Node × S

module _ {Node S : Type 0} (g : Graph Node S) where
  abbrev pub after : Node → S → Config Node S
  after n s = let s' = g.act n s in (g.next n s', s')

  pub data Step (c d : Config Node S) : Type 0 where
    fire : (n : Node) → c.0 ≡ some n → d ≡ after n c.1 → Step c d

  pub data Reach : Config Node S → Config Node S → Type 0 where
    here : {c d : Config Node S} → c ≡ d → Reach c d
    then : {c d : Config Node S} (e : Config Node S) → Step c e → Reach e d → Reach c d

  -- At most so many steps.
  unfoldable pub run : ℕ → Config Node S → Config Node S
  run zero c = c
  run (suc k) (none, s) = (none, s)
  run (suc k) (some n, s) = run k (after n s)

  -- The state in which a run of at most so many steps ends.
  unfoldable pub finish : ℕ → S → S
  unfolding run
  finish k s = (run k (some g.start, s)).1
