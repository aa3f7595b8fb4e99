-- ===== src/Tests/Storage.antt =====
-- The theorem on the rows of the rules with texts of one character for the enumerations.
use ceasefire.Prelude.{
  ◌≡◌, refl, List, [], ◌∷◌, Option, none, some, arith, same, list_eq, nat_eq, if◌then◌else◌,
  List-discrete, ℕ_discrete,
}
use ceasefire.Text.{Text, codes}
use ceasefire.Models.{
  Rule, RuleAction, Direction, Protocol, NetworkZone, internet, localhost, lan, single,
}
use ceasefire.Rows.{Codecs, inserted_row, rule_from_row}
use ceasefire.Rows.Restored.{ReadsBack, rule_from_row-inserted_row}
use ceasefire.Tests.{block_all}

abbrev of_action : RuleAction → Text
of_action RuleAction.allow = b'a' ∷ []
of_action RuleAction.block = b'b' ∷ []

abbrev of_direction : Direction → Text
of_direction Direction.both = b'b' ∷ []
of_direction Direction.inbound = b'i' ∷ []
of_direction Direction.outbound = b'o' ∷ []

abbrev of_protocol : Protocol → Text
of_protocol Protocol.any = b'a' ∷ []
of_protocol Protocol.tcp = b't' ∷ []
of_protocol Protocol.udp = b'u' ∷ []
of_protocol Protocol.icmp = b'i' ∷ []
of_protocol Protocol.icmpv6 = b'6' ∷ []

abbrev of_zone : NetworkZone → Text
of_zone internet = b'i' ∷ []
of_zone localhost = b'h' ∷ []
of_zone lan = b'l' ∷ []

-- The first of some values that is written as the text.
abbrev reader : {A : Type 0} → (A → Text) → List A → Text → Option A
reader write [] s = none
reader write (a ∷ l) s = let rest = reader write l s in if same (write a) s then some a else rest

abbrev codecs : Codecs
codecs = record {
  action = record {
    write = of_action;
    read = reader of_action (RuleAction.allow ∷ RuleAction.block ∷ []);
  };
  direction = record {
    write = of_direction;
    read = reader of_direction (Direction.both ∷ Direction.inbound ∷ Direction.outbound ∷ []);
  };
  protocol = record {
    write = of_protocol;
    read =
        reader of_protocol
          (Protocol.any ∷ Protocol.tcp ∷ Protocol.udp ∷ Protocol.icmp ∷ Protocol.icmpv6 ∷ []);
  };
  network_zone = record {
    write = of_zone;
    read = reader of_zone (internet ∷ localhost ∷ lan ∷ []);
  };
}

actions_back : ReadsBack codecs.action
unfolding List-discrete ℕ_discrete
actions_back RuleAction.allow = refl
actions_back RuleAction.block = refl

directions_back : ReadsBack codecs.direction
unfolding List-discrete ℕ_discrete
directions_back Direction.both = refl
directions_back Direction.inbound = refl
directions_back Direction.outbound = refl

protocols_back : ReadsBack codecs.protocol
unfolding List-discrete ℕ_discrete
protocols_back Protocol.any = refl
protocols_back Protocol.tcp = refl
protocols_back Protocol.udp = refl
protocols_back Protocol.icmp = refl
protocols_back Protocol.icmpv6 = refl

zones_back : ReadsBack codecs.network_zone
unfolding List-discrete ℕ_discrete
zones_back internet = refl
zones_back localhost = refl
zones_back lan = refl

abbrev ported : Rule
ported = record block_all { remote_port = some (single 443); network_zone = some lan }

rule_from_row-inserted_row_example :
    rule_from_row codecs (inserted_row codecs (codes "2026-01-01T00:00:00Z") 7 ported)
    ≡ record ported {
      id = some 7;
      created_at = some (codes "2026-01-01T00:00:00Z");
      updated_at = some (codes "2026-01-01T00:00:00Z");
    }
rule_from_row-inserted_row_example =
    rule_from_row-inserted_row codecs (codes "2026-01-01T00:00:00Z") 7 ported actions_back
      directions_back protocols_back zones_back (omega arith) tt tt tt
