-- ===== src/Tests/Messages.antt =====
-- Messages of the MGC, parsed.
use megaco_sip_gateway.Prelude.{
  ℕ, Bytes, lit, Bool, true, false, List, [], ◌∷◌, Option, none, some, ◌≡◌, refl,
}
use megaco_sip_gateway.Prelude.{length, ◌<◌}
use megaco_sip_gateway.H248.Syntax.{round, rounds, parse_assignments}
use megaco_sip_gateway.H248.Syntax.Rounds.{LeavesBelow, continue, parse_assignments-rounds}
use megaco_sip_gateway.Prelude.Result.{Result, ok, err}
use megaco_sip_gateway.H248.Message.{Message, Command}
use megaco_sip_gateway.H248.Parse.{ParseError, parse}

-- What the tests look at in a parsed message
record Summary : Type 0 where
  pub version : ℕ
  pub kind : Bytes
  pub id : Bytes
  pub context_id : Bytes
  pub commands : List (Bytes × Bytes × Bytes × Bool)

named_commands : List Command → List (Bytes × Bytes × Bytes × Bool)
named_commands [] = []
named_commands (c ∷ rest) =
    (c.name, c.termination_id, c.context_id, c.optional) ∷ named_commands rest

summary : Result ParseError Message → Option Summary
summary (err e) = none
summary (ok m) = some (record {
  version = m.version;
  kind = m.transaction_type;
  id = m.transaction_id;
  context_id = m.context_id;
  commands = named_commands m.commands;
})

parse_optional :
    summary (parse (lit "!/1 [198.51.100.20]:2944 T=8{C=99{O-S=*,MF=A0{E=11{al/*}}}}"))
    ≡ some (record {
      version = 1;
      kind = lit "Transaction";
      id = lit "8";
      context_id = lit "99";
      commands =
          (lit "Subtract", lit "*", lit "99", true)
          ∷ (lit "Modify", lit "A0", lit "99", false)
          ∷ [];
    })
unfolding parse summary named_commands lit
parse_optional = refl

parse_wrapped :
    summary (
      parse
        (lit "!/1 [mgc]\nP=mgc{\n  T=12{\n  C=-{ServiceChange=root{Services{Method=Restart}}}\n}}"))
    ≡ some (record {
      version = 1;
      kind = lit "Transaction";
      id = lit "12";
      context_id = lit "-";
      commands = (lit "ServiceChange", lit "root", lit "-", false) ∷ [];
    })
unfolding parse summary named_commands lit
parse_wrapped = refl

parse_legacy :
    summary (parse (lit "megaco/2 gw C=7 {Modify = \"A1\" {E=1{al/of}} N=A2"))
    ≡ some (record {
      version = 2;
      kind = [];
      id = [];
      context_id = lit "7";
      commands =
          (lit "Modify", lit "A1", lit "7", false) ∷ (lit "Notify", lit "A2", lit "7", false) ∷ [];
    })
unfolding parse summary named_commands lit
parse_legacy = refl

-- Two items of a Modify, one with a body
abbrev items : Bytes
items = lit "E=2012{al/on, al/of}, M=x"

parse_assignments-rounds_example :
    LeavesBelow (length items) (round items)
    × (parse_assignments items ≡ continue parse_assignments (round items))
    × ((fuel : ℕ) → length items < fuel → rounds fuel items ≡ parse_assignments items)
parse_assignments-rounds_example = parse_assignments-rounds items
