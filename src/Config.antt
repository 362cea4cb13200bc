-- ===== src/Config.antt =====
-- agent-rust/src/engine.rs: the configuration of a session, as far as the modelled operations read it.
pub mod Sample
use state_driven_agent.Common.{ℕ, String, Bool, Option, List}
use state_driven_agent.Common.Int.{ℤ}
use state_driven_agent.Json.{Number, Value}

-- How the provider is asked.
pub record Llm : Type 0 where
  pub base_url : String
  pub api_key_env : String
  pub temperature : Number
  pub tool_call_mode : String
  pub max_output_tokens : Option ℤ

pub record Memory : Type 0 where
  pub max_tokens : ℤ
  pub max_steps : ℤ
  pub raw_turns_to_keep : ℕ
  pub hybrid_reflection : Bool
  pub run_max_steps : Option ℤ
  pub compaction_interval_steps : Option ℤ
  pub context_window_tokens : ℤ
  pub reserved_output_tokens : ℤ
  pub safety_margin_tokens : ℤ
  pub compaction_min_growth_tokens : ℤ

pub record Evidence : Type 0 where
  pub description : String
  pub tool : String
  pub required : Bool
  pub arguments : Value
  pub result : Value
  pub content_contains : List String

pub record Edge : Type 0 where
  pub to : String
  pub when : String
  pub evidence : List Evidence

pub record Phase : Type 0 where
  pub id : String
  pub name : String
  pub instruction : String
  pub allowed_tools : Option (List String)
  pub completion : List Evidence
  pub transitions : List Edge

pub record WorkflowConfig : Type 0 where
  pub entry_phase : String
  pub phases : List Phase

pub record Tool : Type 0 where
  pub name : String
  pub description : String
  pub parameters : Value
  pub recovery : Option Value

pub record Config : Type 0 where
  pub name : String
  pub system_prompt : String
  pub model : String
  pub llm : Llm
  pub memory : Memory
  pub tools : List Tool
  pub workflow : Option WorkflowConfig
  pub execution : Value
  pub completion : Value
