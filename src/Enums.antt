-- ===== src/Enums.antt =====
-- common/schemas/enums.py: the enumerations. The database holds their values, which are strings, and
-- `..._str` is Python's `str` of a member.
use dox.Prelude.{String, Option, List, [], ◌∷◌, ◌≡◌, refl, String_eq, some}
use dox.Sql.Rows.{find}

pub data Environment : Type 0 where
  dev test staging prod : Environment

unfoldable pub environment_str : Environment → String
environment_str Environment.dev = "dev"
environment_str Environment.test = "test"
environment_str Environment.staging = "staging"
environment_str Environment.prod = "prod"

pub data EventType : Type 0 where
  user_input_received agent_started agent_step_started agent_step_completed model_called : EventType
  model_response_received reasoning_captured tool_selected tool_call_started : EventType
  tool_call_completed tool_call_failed tool_call_blocked memory_read : EventType
  memory_write_requested memory_write_approved memory_write_blocked memory_rollback : EventType
  rag_query rag_chunk_retrieved policy_evaluated policy_failed sentinel_alert_created : EventType
  intervention_requested intervention_applied delegation_started delegation_completed : EventType
  consent_checked agent_completed agent_failed agent_paused agent_resumed : EventType
  agent_terminated replay_started replay_completed : EventType

unfoldable pub event_type_str : EventType → String
event_type_str EventType.user_input_received = "user_input_received"
event_type_str EventType.agent_started = "agent_started"
event_type_str EventType.agent_step_started = "agent_step_started"
event_type_str EventType.agent_step_completed = "agent_step_completed"
event_type_str EventType.model_called = "model_called"
event_type_str EventType.model_response_received = "model_response_received"
event_type_str EventType.reasoning_captured = "reasoning_captured"
event_type_str EventType.tool_selected = "tool_selected"
event_type_str EventType.tool_call_started = "tool_call_started"
event_type_str EventType.tool_call_completed = "tool_call_completed"
event_type_str EventType.tool_call_failed = "tool_call_failed"
event_type_str EventType.tool_call_blocked = "tool_call_blocked"
event_type_str EventType.memory_read = "memory_read"
event_type_str EventType.memory_write_requested = "memory_write_requested"
event_type_str EventType.memory_write_approved = "memory_write_approved"
event_type_str EventType.memory_write_blocked = "memory_write_blocked"
event_type_str EventType.memory_rollback = "memory_rollback"
event_type_str EventType.rag_query = "rag_query"
event_type_str EventType.rag_chunk_retrieved = "rag_chunk_retrieved"
event_type_str EventType.policy_evaluated = "policy_evaluated"
event_type_str EventType.policy_failed = "policy_failed"
event_type_str EventType.sentinel_alert_created = "sentinel_alert_created"
event_type_str EventType.intervention_requested = "intervention_requested"
event_type_str EventType.intervention_applied = "intervention_applied"
event_type_str EventType.delegation_started = "delegation_started"
event_type_str EventType.delegation_completed = "delegation_completed"
event_type_str EventType.consent_checked = "consent_checked"
event_type_str EventType.agent_completed = "agent_completed"
event_type_str EventType.agent_failed = "agent_failed"
event_type_str EventType.agent_paused = "agent_paused"
event_type_str EventType.agent_resumed = "agent_resumed"
event_type_str EventType.agent_terminated = "agent_terminated"
event_type_str EventType.replay_started = "replay_started"
event_type_str EventType.replay_completed = "replay_completed"

pub data Severity : Type 0 where
  low medium high critical : Severity

unfoldable pub severity_str : Severity → String
severity_str Severity.low = "low"
severity_str Severity.medium = "medium"
severity_str Severity.high = "high"
severity_str Severity.critical = "critical"

pub data SentinelType : Type 0 where
  trajectory tool_misuse policy_breach memory drift injection cost_loop delegation bias :
      SentinelType
  hallucination regulatory : SentinelType

unfoldable pub sentinel_type_str : SentinelType → String
sentinel_type_str SentinelType.trajectory = "trajectory"
sentinel_type_str SentinelType.tool_misuse = "tool_misuse"
sentinel_type_str SentinelType.policy_breach = "policy_breach"
sentinel_type_str SentinelType.memory = "memory"
sentinel_type_str SentinelType.drift = "drift"
sentinel_type_str SentinelType.injection = "injection"
sentinel_type_str SentinelType.cost_loop = "cost_loop"
sentinel_type_str SentinelType.delegation = "delegation"
sentinel_type_str SentinelType.bias = "bias"
sentinel_type_str SentinelType.hallucination = "hallucination"
sentinel_type_str SentinelType.regulatory = "regulatory"

pub data InterventionAction : Type 0 where
  allow warn redact block_tool_call pause_agent request_human_review force_safe_response :
      InterventionAction
  rollback_memory_write isolate_agent terminate_execution : InterventionAction

unfoldable pub action_str : InterventionAction → String
action_str InterventionAction.allow = "allow"
action_str InterventionAction.warn = "warn"
action_str InterventionAction.redact = "redact"
action_str InterventionAction.block_tool_call = "block_tool_call"
action_str InterventionAction.pause_agent = "pause_agent"
action_str InterventionAction.request_human_review = "request_human_review"
action_str InterventionAction.force_safe_response = "force_safe_response"
action_str InterventionAction.rollback_memory_write = "rollback_memory_write"
action_str InterventionAction.isolate_agent = "isolate_agent"
action_str InterventionAction.terminate_execution = "terminate_execution"

pub data UserRole : Type 0 where
  admin operator viewer agent : UserRole

unfoldable pub role_str : UserRole → String
role_str UserRole.admin = "admin"
role_str UserRole.operator = "operator"
role_str UserRole.viewer = "viewer"
role_str UserRole.agent = "agent"

pub data SubscriptionTier : Type 0 where
  starter professional enterprise : SubscriptionTier

unfoldable pub tier_str : SubscriptionTier → String
tier_str SubscriptionTier.starter = "starter"
tier_str SubscriptionTier.professional = "professional"
tier_str SubscriptionTier.enterprise = "enterprise"

abbrev pub actions : List InterventionAction
actions =
    allow ∷ warn ∷ redact ∷ block_tool_call ∷ pause_agent ∷ request_human_review
    ∷ force_safe_response ∷ rollback_memory_write ∷ isolate_agent ∷ terminate_execution ∷ []

-- `InterventionAction(s)`; `none` is its ValueError.
unfoldable pub parse_action : String → Option InterventionAction
unfolding find action_str
parse_action s = find action_str s actions

pub parse_action-action_str : (a : InterventionAction) → parse_action (action_str a) ≡ some a
unfolding parse_action
parse_action-action_str allow = refl
parse_action-action_str warn = refl
parse_action-action_str redact = refl
parse_action-action_str block_tool_call = refl
parse_action-action_str pause_agent = refl
parse_action-action_str request_human_review = refl
parse_action-action_str force_safe_response = refl
parse_action-action_str rollback_memory_write = refl
parse_action-action_str isolate_agent = refl
parse_action-action_str terminate_execution = refl

-- The members, in the order of the source.
abbrev pub event_types : List EventType
event_types =
    EventType.user_input_received ∷ EventType.agent_started ∷ EventType.agent_step_started
    ∷ EventType.agent_step_completed ∷ EventType.model_called ∷ EventType.model_response_received
    ∷ EventType.reasoning_captured ∷ EventType.tool_selected ∷ EventType.tool_call_started
    ∷ EventType.tool_call_completed ∷ EventType.tool_call_failed ∷ EventType.tool_call_blocked
    ∷ EventType.memory_read ∷ EventType.memory_write_requested ∷ EventType.memory_write_approved
    ∷ EventType.memory_write_blocked ∷ EventType.memory_rollback ∷ EventType.rag_query
    ∷ EventType.rag_chunk_retrieved ∷ EventType.policy_evaluated ∷ EventType.policy_failed
    ∷ EventType.sentinel_alert_created ∷ EventType.intervention_requested
    ∷ EventType.intervention_applied ∷ EventType.delegation_started ∷ EventType.delegation_completed
    ∷ EventType.consent_checked ∷ EventType.agent_completed ∷ EventType.agent_failed
    ∷ EventType.agent_paused ∷ EventType.agent_resumed ∷ EventType.agent_terminated
    ∷ EventType.replay_started ∷ EventType.replay_completed ∷ []

abbrev pub environments : List Environment
environments = Environment.dev ∷ Environment.test ∷ Environment.staging ∷ Environment.prod ∷ []
