-- ===== src/Dto/Wire.antt =====
-- How rules are read from and written to the wire.
use secure_connect_connector.Dto.{PortRule, as_wire, parsed_rules, rule_transport_of}
use secure_connect_connector.Base.{
  List, Option, Option-cases, String, [], ap, arith, inl, inr, refl, sym, ◌++◌, ◌∙◌, ◌∷◌, ◌≡◌,
}

-- A transport that is read is written back as it was sent, one that is not known included.
pub as_wire-rule_transport_of : (value : String) → as_wire (rule_transport_of value) ≡ value
unfolding as_wire rule_transport_of
as_wire-rule_transport_of value = ground arith

-- No two transports that are read from the wire are equal unless they were sent as the same text.
pub rule_transport_of-injective : (a b : String) → rule_transport_of a ≡ rule_transport_of b → a ≡ b
rule_transport_of-injective a b e =
    sym (as_wire-rule_transport_of a) ∙ ap as_wire e ∙ as_wire-rule_transport_of b

-- Reading the rules of a bundle keeps those that parse, in their order, whatever stands before or
-- after them: an element that does not parse costs no other rule.
pub parsed_rules-append {ℓ} :
    {V : Type ℓ} (parse : V → Option PortRule) (before after : List V)
    → parsed_rules parse (before ++ after) ≡ parsed_rules parse before ++ parsed_rules parse after
unfolding parsed_rules
parsed_rules-append parse [] after = refl
parsed_rules-append parse (a ∷ before) after = elim (Option-cases (parse a)) [
  | inl e ↦ rw (e, parsed_rules) (parsed_rules-append parse before after)
  | inr (rule, e) ↦
      rw (e, parsed_rules) (ap (λ rest. rule ∷ rest) (parsed_rules-append parse before after))
]
