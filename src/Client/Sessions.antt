-- ===== src/Client/Sessions.antt =====
-- A session of the client of 2/client on concrete input.
use tors_hw.Base.{
  ℕ, ◌≡◌, refl, ℤ, pos, negsuc, String, Bool, true, Option, some, List, [], ◌∷◌, map, err, fatal,
  arith,
}
use tors_hw.Client.{not_sent, replied, named_node}
use tors_hw.Client.Commands.{read, write, create}
use tors_hw.Client.Main.{NodeConfig, Console, new_nodes_config, main}
use tors_hw.Client.Main.Session.{Asked, line_of, main_answers}

abbrev any_url : String → Bool
any_url url = true

abbrev no_number : String → ℤ
no_number field = negsuc 0

abbrev always_80 : ℤ → String
always_80 i = "80"

abbrev any_file : String → Option (List ℕ)
any_file name = some []

abbrev hosts : List NodeConfig
hosts =
    record { host = "a"; internal_port = pos 80; external_port = pos 80 }
    ∷ record { host = "b"; internal_port = pos 80; external_port = pos 80 }
    ∷ []

abbrev hosts_of : List ℕ → Option (List NodeConfig)
hosts_of bytes = some hosts

-- A write whose first call fails, and a read.
abbrev two_commands : List Asked
two_commands =
    record {
      command = write (create "a" "1");
      more = [];
      attempts = not_sent ∷ replied "created" ∷ [];
      text = "created";
    }
    ∷ record { command = read "a"; more = []; attempts = replied "found" ∷ []; text = "found" }
    ∷ []

abbrev fresh : Console
fresh = record { world = record { draws = 1 ∷ 0 ∷ []; sent = [] }; printed = [] }

main_answers_example :
    ((main any_url no_number always_80 any_file hosts_of
        ("client" ∷ "nodes.json" ∷ [])
        (map line_of two_commands)
        fresh).0
      ≡ err fatal)
    × ((main any_url no_number always_80 any_file hosts_of
          ("client" ∷ "nodes.json" ∷ [])
          (map line_of two_commands)
          fresh).1.printed
        ≡ "created" ∷ "found" ∷ [])
unfolding named_node new_nodes_config
main_answers_example =
    main_answers any_url no_number always_80 any_file hosts_of ("client" ∷ "nodes.json" ∷ [])
      "nodes.json" hosts two_commands fresh refl refl
      (
        record { answered = refl; here = omega arith; accepts = (refl, (refl, tt)) },
        (record { answered = refl; here = omega arith; accepts = (refl, (refl, tt)) }, tt),
      )
      (omega arith, (omega arith, tt))
