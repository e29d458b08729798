-- ===== src/Bridge/Invariant/Past.antt =====
-- An invariant together with a bound on the next reference.
use megaco_sip_gateway.Prelude.{ℕ, ◌≤◌, arith}
use megaco_sip_gateway.Bridge.State.{Bridge, Env, send, schedule, change, modify}
use megaco_sip_gateway.Bridge.Line.{take_down}
use megaco_sip_gateway.Bridge.Invite.{register_invite, unregister_invite}
use megaco_sip_gateway.Bridge.Admission.{register_outbound}
use megaco_sip_gateway.Bridge.FromMgc.Add.{make_call, register_context}
use megaco_sip_gateway.Bridge.Run.{take_timer}
use megaco_sip_gateway.Bridge.Invariant.{Invariant}

abbrev pub Past : ℕ → (Bridge → Type 0) → Bridge → Type 0
Past n P b = P b × (n ≤ b.next_ref)

module _ {env : Env} {P : Bridge → Type 0} (keeps : Invariant env P) (n : ℕ) where
  pub Past-Invariant : Invariant env (Past n P)
  unfolding send schedule change take_down register_invite unregister_invite register_context
      make_call register_outbound take_timer modify
  Past-Invariant = record {
    of_sip = λ b h. keeps.of_sip b h.0;
    of_h248 = λ b h. keeps.of_h248 b h.0;
    of_contexts = λ b h. keeps.of_contexts b h.0;
    of_outbound = λ b h. keeps.of_outbound b h.0;
    of_timers = λ b h. keeps.of_timers b h.0;
    aside = λ f is b h. (keeps.aside f is b h.0, rw (is.next_ref b) h.1);
    gentle = λ r f is b h. (keeps.gentle r f is b h.0, h.1);
    sends = λ o is b h. (keeps.sends o is b h.0, h.1);
    schedules = λ d task b is h. (keeps.schedules d task b is h.0, h.1);
    takes_timer = λ i b h. (keeps.takes_timer i b h.0, h.1);
    takes_down = λ r b h. (keeps.takes_down r b h.0, h.1);
    reports = λ r phase b b' lt is report h.
        (keeps.reports r phase b b' lt is report h.0, rw report.next_ref h.1);
    invites = λ r i peer b lt a e c h. (keeps.invites r i peer b lt a e c h.0, h.1);
    uninvites = λ r i b e h. (keeps.uninvites r i b e h.0, h.1);
    registers = λ r b lt e h. (keeps.registers r b lt e h.0, h.1);
    makes = λ c new b h. (keeps.makes c new b h.0, omega arith);
    outbound = λ c new d e b h. (keeps.outbound c new d e b h.0, omega arith);
  }
