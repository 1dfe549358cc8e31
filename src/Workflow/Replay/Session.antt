-- ===== src/Workflow/Replay/Session.antt =====
-- langgraph_workflows/replay/graph.py: what a replay makes of a session's events.
use mathlib.Core.List.{Permᴰ}
use Prim.Native.String.{◌++◌ as ◌++ᵀ◌}
use dox.Prelude.{
  any, ◌==◌, String_eq, All, All-imp, All-perm, suc, ℕ, ◌+◌, ◌≡◌, refl, ◌∙◌, ap, Bool, true, ◌||◌,
  String, none, List, [], ◌∷◌, ◌++◌, map, length, count, min, arith, ◌⊎◌, inl, inr, ℕ_eq,
  length-perm,
}
use dox.Sorting.{sort, sort-perm}
use dox.Sql.{Sql, IsAscending}
use dox.Sql.Engine.{before, sort-IsAscending}
use dox.Events.{EventRecord}
use dox.Query.{conditions, list_events}
use dox.Query.Pages.{Given, Passes, list_events-count_events}
use dox.Workflow.{finish, run}
use dox.Workflow.Replay.{
  LogLine, ReplayState, ReplayEvent, Scene, Draw, validate_events, replay_loop, replay_events,
  filter_of, event_of, load_events, summarize, act, route_after_load, replay_graph,
}

append_nil : (l : List LogLine) → l ++ [] ≡ l
append_nil [] = refl
append_nil (x ∷ l) = ap (λ m. x ∷ m) (append_nil l)

append_cons : (l : List LogLine) (x : LogLine) (m : List LogLine) → (l ++ x ∷ []) ++ m ≡ l ++ x ∷ m
append_cons [] x m = refl
append_cons (y ∷ l) x m = ap (λ k. y ∷ k) (append_cons l x m)

-- The line for an event.
abbrev pub logged : ReplayEvent → LogLine
logged e = LogLine.replayed ("[" ++ᵀ e.event_type ++ᵀ "] " ++ᵀ e.event_id)

replay_loop_lem :
    (events : List ReplayEvent) (log : List LogLine) (n m : ℕ)
    → replay_loop events (log, n, m) ≡ (log ++ map logged events, n + length events, m)
unfolding replay_loop
replay_loop_lem [] log n m = let e : n + 0 ≡ n = omega arith in rw (e, append_nil log) refl
replay_loop_lem (e ∷ events) log n m =
    let more : (n + 1) + length events ≡ n + suc (length events) = omega arith in
    rw
      (
        replay_loop_lem events (log ++ logged e ∷ []) (n + 1) m,
        more,
        append_cons log (logged e) (map logged events),
      )
      refl

-- The events have the one that starts an agent's work, or one that ends it.
abbrev pub has_started : List ReplayEvent → Bool
has_started events = any (λ e. e.event_type == "agent_started") events

abbrev pub has_ended : List ReplayEvent → Bool
has_ended events =
    any (λ e. e.event_type == "agent_completed") events
    || any (λ e. e.event_type == "agent_failed") events

-- The row is of the session.
abbrev pub InSession : ReplayState → EventRecord → Type 0
InSession s r =
    (r.tenant_id ≡ s.tenant_id)
    × (r.session_id ≡ s.session_id)
    × Given (λ a. r.agent_id ≡ a) s.agent_id

-- An event of the replay has what its row has.
abbrev pub Carries : (ℕ → String) → List ReplayEvent → List EventRecord → Type 0
Carries str_id [] [] = Unit
Carries str_id [] (r ∷ rows) = ⊥
Carries str_id (e ∷ events) [] = ⊥
Carries str_id (e ∷ events) (r ∷ rows) =
    ((e.event_id ≡ str_id r.event_id)
      × (e.event_type ≡ r.event_type)
      × (e.agent_id ≡ r.agent_id)
      × (e.timestamp ≡ r.timestamp)
      × (e.payload ≡ r.payload))
    × Carries str_id events rows

module _ (sql : Sql) (str_id : ℕ → String) (str_number : ℕ → String) (audited : Bool)
    (draw : Draw) where
  -- The state that a run leaves.
  abbrev pub replayed : Scene → Scene
  replayed = finish (replay_graph sql str_id str_number audited draw) 4

  -- The session's events, as they are replayed.
  abbrev pub session : Scene → List EventRecord
  session s = sort (before (λ r. r.timestamp)) (list_events sql (filter_of s.state) s.rows)

  abbrev with_events : List ReplayEvent → Scene → Scene
  with_events events s = record s { state = record s.state { events = events; error = none } }

  -- The part of the description that does not look at the table.
  abbrev pub Replays : List ReplayEvent → Scene → Scene → Type 0
  Replays events s t =
      ((events ≡ []) × (t ≡ with_events [] s))
      ⊎ ((t.state.completed ≡ true)
          × (t.state.replayed_count ≡ length events)
          × (t.state.skipped_count ≡ 0)
          × (t.state.replay_log ≡ map logged events)
          × (t.state.has_agent_started ≡ has_started events)
          × (t.state.has_agent_completed ≡ has_ended events))

  loaded_run :
      (s : Scene) (events : List ReplayEvent)
      → let t =
          (run
            (replay_graph sql str_id str_number audited draw)
            3
            (route_after_load none events, with_events events s)).1 in
        (t.rows ≡ s.rows) × (t.state.events ≡ events) × Replays events s t
  unfolding run act validate_events replay_events summarize
  loaded_run s [] = (refl, refl, inl (refl, refl))
  loaded_run s (e ∷ events) =
      let looped = replay_loop_lem (e ∷ events) [] 0 0 in
      let all_counted : 0 + suc (length events) ≡ suc (length events) = omega arith in
      (
        refl,
        refl,
        inr (
          refl,
          ap (λ r. r.1) looped ∙ all_counted,
          ap (λ r. r.2) looped,
          ap (λ r. r.0) looped,
          refl,
          refl,
        ),
      )

  copied :
      (rows : List EventRecord)
      → Carries str_id (map (event_of sql str_id str_number audited draw) rows) rows
  copied [] = tt
  copied (r ∷ rows) = ((refl, refl, refl, refl, refl), copied rows)

  -- A run replays what `list_events` returns for the session, in ascending order of time: the rows are
  -- of the tenant, the session and, where one is given, the agent, are in that order and are the ones of
  -- the page, as many as pass the filter, up to 500; the events carry the identifier, type, agent, time
  -- and payload of these rows. If there is none, nothing but the list of events and the error is
  -- written. Otherwise it completes, counts every event as replayed and none as skipped, logs a line with
  -- the type and identifier of each in that order, and says which of the events that start and end an
  -- agent's work occur.
  pub replayed-session :
      (s : Scene)
      → let t = replayed s in
        let rows = session s in
        All (InSession s.state) rows
        × IsAscending (λ r. r.timestamp) rows
        × Permᴰ rows (list_events sql (filter_of s.state) s.rows)
        × (length rows ≡ min 500 (count (conditions (filter_of s.state)) s.rows))
        × (t.rows ≡ s.rows)
        × ((events : List ReplayEvent) × Carries str_id events rows
            × (t.state.events ≡ events)
            × Replays events s t)
  unfolding finish run act load_events
  replayed-session s =
      let records = list_events sql (filter_of s.state) s.rows in
      let perm = sort-perm (before (λ r. r.timestamp)) records in
      let events = map (event_of sql str_id str_number audited draw) (session s) in
      let ran = loaded_run s events in
      let (meaning, passing, paged, counted) =
        list_events-count_events sql (filter_of s.state) s.rows in
      let own : All (InSession s.state) records =
        All-imp (Passes (filter_of s.state)) (InSession s.state) records
          (λ r h. (h.0, h.1.1.1.1.0, h.1.0)) passing in
      (
        (All-perm (InSession s.state) perm).1 own,
        sort-IsAscending (λ r. r.timestamp) records,
        perm,
        omega (arith, length-perm perm, paged, counted),
        ran.0,
        (events, copied (session s), ran.1, ran.2),
      )
