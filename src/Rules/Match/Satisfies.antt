-- ===== src/Rules/Match/Satisfies.antt =====
-- `matches` decides a conjunction, one condition for each field.
use network_proxy.Prelude.{
  ◌==◌, is_empty, Bytes, codes, eqb, ℕ, ◌≡◌, ◌⊎◌, Bool, true, ◌&&◌, ◌||◌, [], ◌++◌,
}
use network_proxy.Rules.Types.{RuleMatchContext, RuleCondition}
use network_proxy.Rules.Match.{contains}
use network_proxy.Rules.Text.{to_lower}

-- A pattern stands somewhere in a text.
abbrev pub Occurs : Bytes → Bytes → Type 0
Occurs pattern text = (u : Bytes) × (v : Bytes) × (text ≡ u ++ (pattern ++ v))

-- The field is empty, or "any", or the lower-case form of the context's.
abbrev pub Names : Bytes → Bytes → Type 0
Names pattern text = (pattern ≡ []) ⊎ ((pattern ≡ codes "any") ⊎ (pattern ≡ to_lower text))

pub record Satisfies (condition : RuleCondition) (context : RuleMatchContext) : Type 0 where
  pub protocol : Names condition.protocol context.protocol
  pub direction : Names condition.direction context.direction
  pub host : Occurs condition.host_contains (to_lower context.host)
  pub method : (condition.method ≡ []) ⊎ (condition.method ≡ to_lower context.method)
  pub path : Occurs condition.path_contains (to_lower context.path)
  pub process_name :
      (condition.process_name ≡ []) ⊎ (condition.process_name ≡ to_lower context.process_name)
  pub remote_port : (condition.remote_port ≡ 0) ⊎ (condition.remote_port ≡ context.remote_port)

names_test : Bytes → Bytes → Bool
names_test p t = is_empty p || (eqb p (codes "any") || eqb p (to_lower t))

text_test : Bytes → Bytes → Bool
text_test p t = is_empty p || eqb p (to_lower t)

occurs_test : Bytes → Bytes → Bool
occurs_test p t = is_empty p || contains (to_lower t) p

port_test : ℕ → ℕ → Bool
port_test p q = p == 0 || p == q

tests : RuleCondition → RuleMatchContext → Bool
tests c x =
    names_test c.protocol x.protocol
    && (names_test c.direction x.direction
        && (occurs_test c.host_contains x.host
            && (text_test c.method x.method
                && (occurs_test c.path_contains x.path
                    && (text_test c.process_name x.process_name
                        && (port_test c.remote_port x.remote_port && true))))))
