-- ===== src/Rules/Types.antt =====
-- src/rules/rule_engine.h: the data of the rule engine.
use network_proxy.Prelude.{Bytes, ℕ, []}
use network_proxy.Http.{HeaderMap}

pub record RuleMatchContext : Type 0 where
  pub protocol : Bytes
  pub direction : Bytes
  pub host : Bytes
  pub method : Bytes
  pub path : Bytes
  pub process_name : Bytes
  pub remote_port : ℕ

pub record RuleCondition : Type 0 where
  pub protocol : Bytes
  pub direction : Bytes
  pub host_contains : Bytes
  pub method : Bytes
  pub path_contains : Bytes
  pub process_name : Bytes
  pub remote_port : ℕ

pub record RuleAction : Type 0 where
  pub text_find : Bytes
  pub text_replace : Bytes
  pub hex_find : Bytes
  pub hex_replace : Bytes
  pub body_find : Bytes
  pub body_replace : Bytes
  pub header_set : HeaderMap

pub record RuleDefinition : Type 0 where
  pub name : Bytes
  pub when : RuleCondition
  pub action : RuleAction

abbrev pub empty_context : RuleMatchContext
empty_context = record {
  protocol = [];
  direction = [];
  host = [];
  method = [];
  path = [];
  process_name = [];
  remote_port = 0;
}

abbrev pub empty_condition : RuleCondition
empty_condition = record {
  protocol = [];
  direction = [];
  host_contains = [];
  method = [];
  path_contains = [];
  process_name = [];
  remote_port = 0;
}

abbrev pub empty_action : RuleAction
empty_action = record {
  text_find = [];
  text_replace = [];
  hex_find = [];
  hex_replace = [];
  body_find = [];
  body_replace = [];
  header_set = [];
}

-- `RuleDefinition{}`
abbrev pub empty_rule : RuleDefinition
empty_rule = record { name = []; when = empty_condition; action = empty_action }
