-- ===== src/Workflow/Review/Paths.antt =====
-- langgraph_workflows/human_review/graph.py: a run ends.
use dox.Prelude.{◌<◌, ℕ, ◌≡◌, String, Option, none, some, arith}
use dox.Result.{Error, Result}
use dox.Sql.{Sql}
use dox.Sentinel.{SentinelAlert}
use dox.Workflow.{Config, Reach}
use dox.Workflow.Runs.{finish-Reach}
use dox.Workflow.Review.Decision.{review}
use dox.Workflow.Review.{Scene, Draw, Node, route, route_after_request, review_graph}

rank : Node → ℕ
rank Node.load = 2
rank Node.request = 1
rank Node.decide = 0

module _ (sql : Sql) (parse_id : String → Result ℕ) (message : SentinelAlert → String)
    (draw : Draw) where
  after_request_falls :
      (e : Option Error) (o : Option String) (m : Node)
      → route_after_request e o ≡ some m
      → rank m < 1
  unfolding rank
  after_request_falls (some e) o m h = cc
  after_request_falls none none m h = cc
  after_request_falls none (some String.[]) m h = cc
  after_request_falls none (some (String.◌∷◌ c d)) m h = ground arith

  route_falls :
      (n m : Node) (s : Scene) → route sql parse_id message draw n s ≡ some m → rank m < rank n
  unfolding rank
  route_falls Node.load m s h = ground arith
  route_falls Node.request m s h = after_request_falls s.state.error s.state.decision m h
  route_falls Node.decide m s h = ground arith

  -- Whatever a run of the review has reached, it goes on to the one state that `review` computes, and
  -- ends there.
  pub review-Reach :
      (s : Scene) (d : Config Node Scene)
      → Reach (review_graph sql parse_id message draw) (some Node.load, s) d
      → Reach (review_graph sql parse_id message draw) d (none, review sql parse_id message draw s)
  unfolding rank
  review-Reach s d r =
      finish-Reach (review_graph sql parse_id message draw) rank route_falls 3 s (omega arith) d r
