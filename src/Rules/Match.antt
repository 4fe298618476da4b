-- ===== src/Rules/Match.antt =====
-- src/rules/rule_engine.cpp: `matches`.
pub mod Satisfies
use network_proxy.Prelude.{
  ◌==◌, if◌then◌else◌, is_some, is_empty, Bytes, codes, eqb, find, Bool, true, false, not, ◌&&◌,
}
use network_proxy.Rules.Types.{RuleMatchContext, RuleCondition}
use network_proxy.Rules.Text.{to_lower}

-- `text.find(pattern) != npos`
abbrev pub contains : Bytes → Bytes → Bool
contains text pattern = is_some (find text pattern)

unfoldable pub matches : RuleCondition → RuleMatchContext → Bool
matches condition context =
    if not (is_empty condition.protocol)
      && (not (eqb condition.protocol (codes "any"))
          && not (eqb condition.protocol (to_lower context.protocol)))
    then false
    else if not (is_empty condition.direction)
        && (not (eqb condition.direction (codes "any"))
            && not (eqb condition.direction (to_lower context.direction)))
    then false
    else if not (is_empty condition.host_contains)
        && not (contains (to_lower context.host) condition.host_contains)
    then false
    else if not (is_empty condition.method) && not (eqb condition.method (to_lower context.method))
    then false
    else if not (is_empty condition.path_contains)
        && not (contains (to_lower context.path) condition.path_contains)
    then false
    else if not (is_empty condition.process_name)
        && not (eqb condition.process_name (to_lower context.process_name))
    then false
    else if not (condition.remote_port == 0) && not (condition.remote_port == context.remote_port)
    then false
    else true
