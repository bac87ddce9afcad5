-- ===== src/Agent/Flow.antt =====
-- agent_loop.py: the planner flow. Its nodes read and write a store; the action that a node answers
-- names the edge to the next one. What is only logged, traced or shown is left out, as is what a
-- tool's result does to the loaded skills and the retrieved questions.
use aegora.Prelude.{ℕ, String, Bool, Option, none, some, List}
use aegora.Prelude.Result.{Result}

pub data Route : Type 0 where
  faq_answer answer tool_call clarify handoff chat : Route

pub record ToolCall (A : Type 0) : Type 0 where
  pub call_id : String
  pub tool_name : String
  pub tool_args : A
  pub reason : Option String

pub record AgentDecision (A : Type 0) : Type 0 where
  pub route : Route
  pub answer : Option String
  pub tool_name : Option String
  pub tool_args : A
  pub reason : Option String
  pub tool_calls : List (ToolCall A)

-- What a tool reported; `output` is the rest of its result.
pub record ToolResult (A J : Type 0) : Type 0 where
  pub call_id : String
  pub tool_name : String
  pub args : A
  pub status : Option String
  pub output : Option J
  pub error : Option String

pub record ToolBatch (A J : Type 0) : Type 0 where
  pub status : Option String
  pub answer : Option String
  pub approval_requests : List J
  pub results : List (ToolResult A J)

pub record SelfCheckResult : Type 0 where
  pub passed : Bool
  pub reason : Option String
  pub revised_answer : Option String

-- `skill_retrieval` is none where there is no loader, and the error of a loader that raised; `intent`
-- is none where there is no guard.
pub record Store (A J : Type 0) : Type 0 where
  pub context : Option J
  pub skill_retrieval : Option (Result J)
  pub intent : Option J
  pub loop_count : ℕ
  pub decision : Option (AgentDecision A)
  pub route : Option String
  pub answer : Option String
  pub status : String
  pub tool_observations : List (ToolResult A J)
  pub approval_requests : List J
  pub errors : List String

-- A call that raises is an error. The calls before the first
-- thought are on the request, which is fixed, and on the context. A single tool gives its status, its output and its error.
pub record AgentDependencies (A J : Type 0) : Type 0 where
  pub load_context : Result J
  pub load_skills : Option (Option J → Result J)
  pub pre_guard : Option (Option J → Result J)
  pub think : Store A J → Result (AgentDecision A)
  pub run_tool : String → A → Store A J → Result (Option String × Option J × Option String)
  pub run_tools : Option (List (ToolCall A) → Store A J → Result (ToolBatch A J))
  pub self_check : Store A J → Result SelfCheckResult

pub data FlowNode : Type 0 where
  load_context_node load_skills_node pre_guard_node think_node execute_tool_node self_check_node :
      FlowNode

pub data Action : Type 0 where
  ok_action error_action tool_call_action answer_action clarify_action handoff_action chat_action
        pending_approval_action done_action :
      Action

-- The edges of `build_planner_flow`.
unfoldable pub successor : FlowNode → Action → Option FlowNode
successor load_context_node ok_action = some load_skills_node
successor load_skills_node ok_action = some pre_guard_node
successor pre_guard_node ok_action = some think_node
successor think_node tool_call_action = some execute_tool_node
successor think_node answer_action = some self_check_node
successor think_node clarify_action = some self_check_node
successor think_node handoff_action = some self_check_node
successor think_node chat_action = some self_check_node
successor execute_tool_node ok_action = some think_node
successor execute_tool_node error_action = some think_node
successor execute_tool_node pending_approval_action = some self_check_node
successor _ _ = none

abbrev pub route_name : Route → String
route_name faq_answer = "faq_answer"
route_name answer = "answer"
route_name tool_call = "tool_call"
route_name clarify = "clarify"
route_name handoff = "handoff"
route_name chat = "chat"

-- What `ThinkNode.post` answers.
abbrev pub route_action : Route → Action
route_action faq_answer = answer_action
route_action answer = answer_action
route_action tool_call = tool_call_action
route_action clarify = clarify_action
route_action handoff = handoff_action
route_action chat = chat_action
