-- ===== src/Workflow/Replay.antt =====
-- langgraph_workflows/replay/graph.py: the replay of a session. The graph's state is modelled together
-- with the table of events, which its nodes read, and the trail, which the last one may add to. `str`
-- of a UUID and of a number are parameters; an event keeps its instant, not a text of it.
pub mod Session
use Prim.Native.String.{◌++◌}
use dox.Prelude.{
  ℕ, ◌+◌, Bool, true, false, ◌||◌, String, Option, none, some, List, [], ◌∷◌, map, any, leb, ◌==◌,
  String_eq, or_text, if◌then◌else◌,
}
use dox.Prelude.{◌++◌ as ◌++ᴸ◌}
use dox.Result.{Error, Result, ok, err}
use dox.Json.{Json, bool, num, obj, end, field}
use dox.Sorting.{sort}
use dox.Sql.{Sql}
use dox.Sql.Engine.{before}
use dox.Events.{EventRecord}
use dox.Query.{EventFilter, list_events}
use dox.Audit.{AuditEntry, AuditEntryCreate, record_checked}
use dox.Workflow.{Graph}

pub record ReplayEvent : Type 0 where
  pub event_id : String
  pub event_type : String
  pub agent_id : String
  pub timestamp : ℕ
  pub payload : Json

-- A line of the log: what was replayed, or the identifier of what was skipped and why.
pub data LogLine : Type 0 where
  replayed : String → LogLine
  skipped : String → Error → LogLine

-- `ReplayState`
pub record ReplayState : Type 0 where
  pub tenant_id : String
  pub session_id : String
  pub agent_id : Option String
  pub events : List ReplayEvent
  pub replayed_count : ℕ
  pub skipped_count : ℕ
  pub replay_log : List LogLine
  pub has_agent_started : Bool
  pub has_agent_completed : Bool
  pub error : Option Error
  pub completed : Bool

pub record Scene : Type 0 where
  pub state : ReplayState
  pub rows : List EventRecord
  pub trail : List AuditEntry

-- The identifier and the time of the entry.
pub record Draw : Type 0 where
  pub entry_id : ℕ
  pub created_at : ℕ

-- The nodes: `load_events`, `validate_events`, `replay_events`, `summarize`.
pub data Node : Type 0 where
  load validate replay summary : Node

abbrev pub has_type : String → List ReplayEvent → Bool
has_type event_type events = any (λ e. e.event_type == event_type) events

unfoldable pub validate_events : Scene → Scene
validate_events s = record s {
  state = record s.state {
    has_agent_started = has_type "agent_started" s.state.events;
    has_agent_completed =
        has_type "agent_completed" s.state.events || has_type "agent_failed" s.state.events;
  };
}

-- `f"[{evt['event_type']}] {evt['event_id']}"`; an event of the state has both keys.
abbrev pub line_of : ReplayEvent → Result String
line_of e = ok ("[" ++ e.event_type ++ "] " ++ e.event_id)

-- The log, and the numbers of the events that were replayed and skipped.
abbrev pub Progress : Type 0
Progress = List LogLine × ℕ × ℕ

-- The body of the loop: an exception is logged, and the event is skipped.
abbrev pub replay_one : String → Result String → Progress → Progress
replay_one event_id (ok line) (log, done, missed) =
    (log ++ᴸ LogLine.replayed line ∷ [], done + 1, missed)
replay_one event_id (err e) (log, done, missed) =
    (log ++ᴸ LogLine.skipped event_id e ∷ [], done, missed + 1)

unfoldable pub replay_loop : List ReplayEvent → Progress → Progress
replay_loop [] p = p
replay_loop (e ∷ events) p = replay_loop events (replay_one e.event_id (line_of e) p)

unfoldable pub replay_events : Scene → Scene
unfolding replay_loop
replay_events s =
    let (log, done, missed) = replay_loop s.state.events ([], 0, 0) in
    record s {
      state = record s.state { replayed_count = done; skipped_count = missed; replay_log = log };
    }

abbrev first_agent : List ReplayEvent → String
first_agent [] = "unknown"
first_agent (e ∷ events) = e.agent_id

-- `_route_after_load`
abbrev pub route_after_load : Option Error → List ReplayEvent → Option Node
route_after_load (some e) events = none
route_after_load none [] = none
route_after_load none (e ∷ events) = some Node.validate

abbrev pub filter_of : ReplayState → EventFilter
filter_of s = record {
  tenant_id = s.tenant_id;
  agent_id = s.agent_id;
  event_type = none;
  environment = none;
  session_id = some s.session_id;
  from_ts = none;
  to_ts = none;
  limit = 500;
  offset = 0;
}

module _ (sql : Sql) (str_id : ℕ → String) (str_number : ℕ → String) (audited : Bool)
    (draw : Draw) where
  abbrev pub event_of : EventRecord → ReplayEvent
  event_of r = record {
    event_id = str_id r.event_id;
    event_type = r.event_type;
    agent_id = r.agent_id;
    timestamp = r.timestamp;
    payload = r.payload;
  }

  unfoldable pub load_events : Scene → Scene
  unfolding list_events sort
  load_events s =
      let records = list_events sql (filter_of s.state) s.rows in
      record s {
        state = record s.state {
          events = map event_of (sort (before (λ r. r.timestamp)) records);
          error = none;
        };
      }

  unfoldable pub entry_of : ReplayState → AuditEntryCreate
  entry_of s = record {
    tenant_id = s.tenant_id;
    actor_id = none;
    actor_email = "system";
    action = "replay_completed";
    resource_type = "session";
    resource_id = s.session_id;
    summary =
        "Replay of session "
        ++ s.session_id
        ++ " (agent="
        ++ or_text s.agent_id (first_agent s.events)
        ++ "): "
        ++ str_number s.replayed_count
        ++ " replayed, "
        ++ str_number s.skipped_count
        ++ " skipped";
    extra = obj (
        field "replayed_count" (num s.replayed_count) (
          field "skipped_count" (num s.skipped_count) (
            field "has_agent_started" (bool s.has_agent_started)
              (field "has_agent_completed" (bool s.has_agent_completed) end))));
  }

  -- What the recording raises is ignored.
  unfoldable pub summarize : Scene → Scene
  unfolding entry_of record_checked
  summarize s = record s {
    state = record s.state { completed = true };
    trail =
        if audited
        then (record_checked draw.entry_id draw.created_at (entry_of s.state) s.trail).1
        else s.trail;
  }

  unfoldable pub act : Node → Scene → Scene
  unfolding load_events validate_events replay_events summarize
  act Node.load = load_events
  act Node.validate = validate_events
  act Node.replay = replay_events
  act Node.summary = summarize

  abbrev pub route : Node → Scene → Option Node
  route Node.load s = route_after_load s.state.error s.state.events
  route Node.validate s = some Node.replay
  route Node.replay s = some Node.summary
  route Node.summary s = none

  abbrev pub replay_graph : Graph Node Scene
  replay_graph = record { start = Node.load; act = act; next = route }
