-- ===== src/Controller/Steps/Tests.antt =====
-- Calls of the service at a concrete repository.
use Prim.Native.Nat.{ℕ, ◌≤◌}
use mathlib.Core.List.{List, [], ◌∷◌, Memᴰ}
use mathlib.Core.List.Memᴰ
use xdrop.Prelude.{String, true, false, some, none, ◌≡◌, refl, sym, subst}
use xdrop.Prelude.Int.{pos}
use xdrop.Prelude.GoMap.{lookup, is_in}
use xdrop.Prelude.Text.{text_beq, text_eq, string_eq}
use xdrop.Net.{parse_ip, parse_cidr}
use xdrop.Net.Print.{ip_to_string}
use xdrop.Agent.Convert.{validate_node_anomaly_fields}
use xdrop.Controller.Types.{RuleRequest, Rule}
use xdrop.Controller.Validate.{refuse_if, ◌>>=◌}
use xdrop.Controller.Create.{create_rule}
use xdrop.Controller.Create.Sound.{IsSound}
use xdrop.Controller.Update.{update_rule}
use xdrop.Controller.Delete.{delete_stored, batch_delete}
use xdrop.Controller.Batch.{batch_create}
use xdrop.Controller.Fixture.{request, stored}
use xdrop.Controller.Steps.{Step, Steps, Steps-IsSound}
use xdrop.Controller.Steps.Memory.{memory, memory-Keeps, find, remove, remove_all, replace}

abbrev disable : RuleRequest
disable = record request { dst_ip = []; decoder = ""; action = ""; enabled = some false }

abbrev to_port : ℕ → RuleRequest
to_port n = record request { decoder = ""; protocol = "tcp"; dst_port = pos n }

abbrev requests : List (String × RuleRequest)
requests = ("rule_2", to_port 80) ∷ ("rule_3", to_port 443) ∷ []

-- a rule is created and disabled, two more come together, one of these is
-- deleted, and then the other
abbrev created : List Rule
created = (create_rule memory "rule_1" true request []).0

abbrev updated : List Rule
updated = (update_rule memory "rule_1" disable created).0

abbrev more : List Rule
more = (batch_create memory updated requests).0

abbrev last : List Rule
last = (delete_stored memory "rule_2" more).0

abbrev fewer : List Rule
fewer = (batch_delete memory last ("rule_2" ∷ "rule_3" ∷ [])).0

run : Steps memory [] fewer
run = Steps.step [] created fewer (Step.create [] "rule_1" true request) (
    Steps.step created updated fewer (Step.update created "rule_1" disable) (
      Steps.step updated more fewer (Step.batch updated requests) (
        Steps.step more last fewer (Step.delete more "rule_2") (
          Steps.step last fewer fewer (Step.delete_many last ("rule_2" ∷ "rule_3" ∷ []))
            (Steps.stop fewer)))))

-- the rule that was created and disabled
abbrev first : Rule
first = record stored { match_anomaly = pos 1; enabled = false }

all_held : fewer ≡ first ∷ []
unfolding create_rule update_rule batch_create delete_stored batch_delete find remove remove_all
    replace refuse_if ◌>>=◌ lookup is_in text_beq parse_ip parse_cidr ip_to_string
all_held = refl

first_held : Memᴰ first fewer
first_held = subst (Memᴰ first) (sym all_held) (Memᴰ.head refl)

Steps-IsSound_example :
    IsSound first
    × ((bits : ℕ) × (first.match_anomaly ≡ pos bits)
        × (bits ≤ 3)
        × (validate_node_anomaly_fields bits first.action first.src_ip first.dst_ip first.src_cidr
              first.dst_cidr
            ≡ none))
Steps-IsSound_example =
    Steps-IsSound memory (λ r x. Memᴰ x r) memory-Keeps [] fewer first run
      (λ x held. absurd (Memᴰ.not-nil held)) first_held
