-- ===== src/Bridge/Invariant/Once.antt =====
-- Reports about a call on the H.248 line: how often each has been sent.
pub mod Counting
use megaco_sip_gateway.Prelude.{
  ℕ, ◌+◌, ◌<◌, ◌≤◌, Bool, true, false, ◌&&◌, List, [], ◌∷◌, none, some, ◌==◌, if◌then◌else◌, ◌≡◌,
  refl, sym, arith, Bool-cases, inl, inr,
}
use megaco_sip_gateway.Net.{UdpAddr}
use megaco_sip_gateway.H248.Interop.Notify.{Notify}
use megaco_sip_gateway.Bridge.State.{
  Ref, Call, Phase, Output, h248_reply, h248_notify, sip_reply, sip_send, Bridge, Env, update,
  change, send, schedule, modify,
}
use megaco_sip_gateway.Bridge.Line.{take_down}
use megaco_sip_gateway.Bridge.Invite.{Invite, register_invite, unregister_invite, invited}
use megaco_sip_gateway.Bridge.Admission.{register_outbound}
use megaco_sip_gateway.Bridge.FromMgc.Add.{make_call, register_context}
use megaco_sip_gateway.Bridge.Report.{IsReport, one_shot, flag, same_phase}
use megaco_sip_gateway.Bridge.Run.{new_bridge, take_timer, Reach}
use megaco_sip_gateway.Bridge.Invariant.{Invariant, IsGentle, IsNew, is_ordinary}
use megaco_sip_gateway.Bridge.Invariant.Consistent.{IsConsistent}
use megaco_sip_gateway.Bridge.Invariant.Registry.{IsConsistent-Invariant, new_bridge-IsConsistent}
use megaco_sip_gateway.Bridge.Invariant.Steps.{reach}
use megaco_sip_gateway.Bridge.Invariant.Once.Counting.{
  reports_sent, as_count, IsOnce, ordinary-is_about, same-IsOnce, update-flag, gentle-flag,
  make_call-IsOnce, report-IsOnce,
}

take_down-flag :
    (r : Ref) (b : Bridge) (p : Phase) (j : Ref)
    → flag p ((take_down r b).cell j) ≡ flag p (b.cell j)
unfolding take_down flag
take_down-flag r b p j = update-flag b.cell r _ p (ground arith) j

register_outbound-IsOnce :
    (c : Call) → IsNew c → (b : Bridge) → IsOnce b → IsOnce (register_outbound c b)
unfolding register_outbound make_call
register_outbound-IsOnce c new b h =
    let made = make_call-IsOnce c new b h in record { counted = made.counted; unmade = made.unmade }

invited-flag :
    (r : Ref) (i : Invite) (peer : UdpAddr) (b : Bridge) (p : Phase) (j : Ref)
    → flag p ((register_invite r i peer b).cell j) ≡ flag p (b.cell j)
unfolding register_invite invited flag
invited-flag r i peer b p j = update-flag b.cell r _ p (ground arith) j

uninvited-flag :
    (r : Ref) (i : Invite) (b : Bridge) (p : Phase) (j : Ref)
    → flag p ((unregister_invite r i b).cell j) ≡ flag p (b.cell j)
unfolding unregister_invite flag
uninvited-flag r i b p j = update-flag b.cell r _ p (ground arith) j

ordinary-IsOnce :
    (env : Env) (o : Output)
    → is_ordinary o ≡ true
    → (b : Bridge) → IsOnce b
    → IsOnce (send env o b).1
unfolding send reports_sent
ordinary-IsOnce env o is b h = record {
  counted =
      λ p one r. let counted = h.counted p one r in ground (arith, ordinary-is_about p r o is);
  unmade = h.unmade;
}

as_count-le : (v : Bool) → as_count v ≤ 1
as_count-le v = ground arith

abbrev Both : Bridge → Type 0
Both b = IsConsistent b × IsOnce b

IsOnce-Invariant : (env : Env) → Invariant env Both
unfolding send schedule change modify take_timer take_down register_invite unregister_invite
    register_context invited reports_sent
IsOnce-Invariant env =
    let base = IsConsistent-Invariant env in
    record {
      of_sip = λ b h. base.of_sip b h.0;
      of_h248 = λ b h. base.of_h248 b h.0;
      of_contexts = λ b h. base.of_contexts b h.0;
      of_outbound = λ b h. base.of_outbound b h.0;
      of_timers = λ b h. base.of_timers b h.0;
      aside = λ f is b h. (
        base.aside f is b h.0,
        same-IsOnce b (f b) (rw (is.next_ref b) (omega arith)) (is.wire b)
            (λ p one r. rw (is.cell b) refl) h.1,
      );
      gentle = λ r f is b h. (
        base.gentle r f is b h.0,
        same-IsOnce b (change r f b).1 (omega arith) refl
            (λ p one j. update-flag b.cell r (f (b.cell r)) p (gentle-flag f is p (b.cell r)) j)
            h.1,
      );
      sends = λ o is b h. (base.sends o is b h.0, ordinary-IsOnce env o is b h.1);
      schedules = λ delay task b is h. (
        base.schedules delay task b is h.0,
        record { counted = h.1.counted; unmade = h.1.unmade },
      );
      takes_timer = λ i b h.
          (base.takes_timer i b h.0, record { counted = h.1.counted; unmade = h.1.unmade });
      takes_down = λ r b h. (
        base.takes_down r b h.0,
        same-IsOnce b _ (omega arith) refl (λ p one j. take_down-flag r b p j) h.1,
      );
      reports = λ r phase b b' lt free report h. (
        base.reports r phase b b' lt free report h.0,
        report-IsOnce r phase b b' lt free report h.1,
      );
      invites = λ r i peer b lt alive idle key h. (
        base.invites r i peer b lt alive idle key h.0,
        same-IsOnce b _ (omega arith) refl (λ p one j. invited-flag r i peer b p j) h.1,
      );
      uninvites = λ r i b own h. (
        base.uninvites r i b own h.0,
        same-IsOnce b _ (omega arith) refl (λ p one j. uninvited-flag r i b p j) h.1,
      );
      registers = λ r b lt alive h.
          (base.registers r b lt alive h.0, record { counted = h.1.counted; unmade = h.1.unmade });
      makes = λ c new b h. (base.makes c new b h.0, make_call-IsOnce c new b h.1);
      outbound = λ c new from key b h.
          (base.outbound c new from key b h.0, register_outbound-IsOnce c new b h.1);
    }

new_bridge-IsOnce : (env : Env) (now : ℕ) → IsOnce (new_bridge env.cfg now)
unfolding new_bridge reports_sent flag
new_bridge-IsOnce env now = record {
  counted = λ p is r. ground arith;
  unmade = λ p is r past. ground arith;
}

reach-IsOnce : (env : Env) (b : Bridge) → Reach env b → Both b
reach-IsOnce env b run =
    reach (IsOnce-Invariant env)
      (λ now. (new_bridge-IsConsistent env now, new_bridge-IsOnce env now)) b run

-- In every run, the on-hook of a call, and the off-hook and the digits that report a call of the
-- PBX to the MGC as an origination, are each sent once at most, whatever messages, timers and
-- failing writes there are; the off-hook that answers a call of the MGC is another report, of
-- which nothing is said.
pub reported_once :
    (env : Env) (b : Bridge)
    → Reach env b
    → (p : Phase) → one_shot p ≡ true
    → (r : Ref) → reports_sent p r b.wire ≤ 1
reported_once env b run p is r =
    let counted = (reach-IsOnce env b run).1.counted p is r in
    rw counted (as_count-le (flag p (b.cell r)))
