-- ===== src/Tests/Data.antt =====
-- Data for the tests: a resolver of one address, an environment in which all writes succeed, and
-- messages of both sides.
use megaco_sip_gateway.Prelude.{lit, true, false, [], ◌∷◌, some}
use megaco_sip_gateway.Net.{UdpAddr, Resolver}
use megaco_sip_gateway.Config.{default_config}
use megaco_sip_gateway.H248
use megaco_sip_gateway.Bridge.State.{Env, Responder, Bridge}
use megaco_sip_gateway.Bridge.Run.{new_bridge, Reach, starts, goes, by_h248, line_ready}
use megaco_sip_gateway.Bridge.FromMgc.{handle_h248, handle_h248_ready}

abbrev pub home : UdpAddr
home = record { ip = lit "192.0.2.1"; port = 5060 }

abbrev pub all_names : Resolver
all_names = record { resolve = λ s. some home; is_ip = λ s. true; is_unspecified = λ s. false }

abbrev pub calm : Env
calm = record {
  cfg = default_config;
  net = all_names;
  write_ok = λ wire o. true;
  relay_ok = λ wire p q. true;
  timestamp = λ t. lit "20260101T00000000";
}

abbrev pub mgc : Responder
mgc = record { remote = home; cache_key = lit "192.0.2.1/1" }

-- An Add of the carrier for a new context
abbrev pub add_message : H248.Message.Message
add_message = record {
  raw = lit "A=$ {M{R{v=0\nc=IN IP4 192.0.2.9\nm=audio 4000 RTP/AVP 8\n}}}";
  version = 1;
  mid = lit "mgc";
  transaction_type = lit "Transaction";
  transaction_id = lit "7";
  context_id = lit "$";
  error_code = [];
  service_change_profile = [];
  commands =
      record {
        name = lit "Add";
        termination_id = default_config.h248.physical_termination;
        body = [];
        context_id = lit "$";
        optional = false;
      }
      ∷ record {
        name = lit "Add";
        termination_id = lit "$";
        body = [];
        context_id = lit "$";
        optional = false;
      }
      ∷ [];
}

abbrev pub fresh : Bridge
fresh = new_bridge default_config 3

-- The line comes up, and the carrier adds a context.
abbrev pub after_add : Bridge
after_add = (handle_h248 calm add_message mgc (handle_h248_ready calm mgc fresh).1).1

abbrev pub run : Reach calm after_add
run =
    goes _ _ (goes _ _ (starts 3) (line_ready fresh mgc))
      (by_h248 (handle_h248_ready calm mgc fresh).1 add_message mgc)
