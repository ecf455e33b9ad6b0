-- ===== src/Controller/Batch/Tests.antt =====
-- BatchCreate at concrete requests.
use Prim.Native.Nat.{ℕ}
use mathlib.Core.List.{List, [], ◌∷◌}
use xdrop.Prelude.{String, ◌≡◌, refl, nat_eq, length}
use xdrop.Prelude.Int.{pos}
use xdrop.Prelude.GoMap.{lookup, is_in}
use xdrop.Prelude.Text.{Text, codes, text_beq, string_eq, text_eq}
use xdrop.Net.{parse_ip, parse_cidr}
use xdrop.Net.Print.{ip_to_string}
use xdrop.Controller.Types.{RuleRequest}
use xdrop.Controller.Validate.{refuse_if, ◌>>=◌}
use xdrop.Controller.Create.Sound.{IsSound}
use xdrop.Controller.Fixture.{request, one_rule}
use xdrop.Controller.Batch.{batch_create, BatchReply, batch_created, batch_failed, print_int}
use xdrop.Controller.Batch.Items.{All, stored_rules}
use xdrop.Controller.Batch.Apart.{AreApart}
use xdrop.Controller.Batch.Stored.{batch_create-AreApart}

abbrev to_port : ℕ → RuleRequest
to_port n = record request { decoder = ""; protocol = "tcp"; dst_port = pos n }

-- two requests for one port, and one for another
abbrev requests : List (String × RuleRequest)
requests = ("rule_1", to_port 80) ∷ ("rule_2", to_port 80) ∷ ("rule_3", to_port 443) ∷ []

-- the numbers of the stored rules, of the failures and of the rules that are sent to the nodes
abbrev counts : BatchReply → ℕ × ℕ × ℕ
counts batch_failed = (0, 0, 0)
counts (batch_created rules failed pushed) = (length rules, failed, length pushed)

one_refused : counts (batch_create one_rule tt requests).1 ≡ (2, 1, 2)
unfolding batch_create refuse_if ◌>>=◌ lookup is_in text_beq parse_ip parse_cidr ip_to_string
one_refused = refl

batch_create-AreApart_example :
    All IsSound (stored_rules (batch_create one_rule tt requests).1)
    × AreApart (stored_rules (batch_create one_rule tt requests).1)
batch_create-AreApart_example = batch_create-AreApart one_rule tt requests

port_printed : print_int (pos 65535) ≡ codes "65535"
unfolding print_int
port_printed = refl

-- two pairs of IPv6 addresses that have one key, since the key joins them by colons
abbrev pair_of : Text → Text → RuleRequest
pair_of src dst = record request { decoder = ""; src_ip = src; dst_ip = dst }

abbrev pairs : List (String × RuleRequest)
pairs =
    ("rule_1", pair_of (codes "1::2:3") (codes "4::5"))
    ∷ ("rule_2", pair_of (codes "1::2") (codes "3:4::5"))
    ∷ []

pair_refused : counts (batch_create one_rule tt pairs).1 ≡ (1, 1, 1)
unfolding batch_create refuse_if ◌>>=◌ lookup is_in text_beq parse_ip parse_cidr ip_to_string
pair_refused = refl
