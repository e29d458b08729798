-- ===== src/Bridge/Invariant/Released.antt =====
-- About the end of a call in internal/bridge: `call.Released` is written by `releaseCall` and `Close`.
use megaco_sip_gateway.Prelude.{
  ◌<◌, Bytes, true, some, ◌≡◌, refl, arith, ◌==◌, Bool-cases, inl, inr, sym,
}
use megaco_sip_gateway.Prelude.Map
use megaco_sip_gateway.Prelude.Entries.{Entries-lookup}
use megaco_sip_gateway.Bridge.State.{Ref, Call, Bridge, Env, update, change, send, schedule, modify}
use megaco_sip_gateway.Bridge.Line.{take_down}
use megaco_sip_gateway.Bridge.Invite.{register_invite, unregister_invite, invited}
use megaco_sip_gateway.Bridge.Admission.{register_outbound}
use megaco_sip_gateway.Bridge.FromMgc.Add.{make_call, register_context}
use megaco_sip_gateway.Bridge.Run.{take_timer, Reach, Step}
use megaco_sip_gateway.Bridge.Invariant.{Invariant}
use megaco_sip_gateway.Bridge.Invariant.Steps.{step}
use megaco_sip_gateway.Bridge.Invariant.Consistent.{
  IsConsistent, IsSipEntry, IsContextEntry, report-Agrees,
}
use megaco_sip_gateway.Bridge.Invariant.Registry.{
  IsConsistent-Invariant, outbound-known, reach-IsConsistent,
}

-- The call `r` has been made and is released, in a state whose maps are consistent.
pub record IsOver (r : Ref) (b : Bridge) : Type 0 where
  pub consistent : IsConsistent b
  pub made : r < b.next_ref
  pub released : (b.cell r).released ≡ true

-- A write to the cell of a call that keeps its end
update-released :
    (cell : Ref → Call) (j : Ref) (c : Call) (r : Ref)
    → (cell r).released ≡ true
    → ((cell j).released ≡ true → c.released ≡ true)
    → (update cell j c r).released ≡ true
unfolding update
update-released cell j c r over keep = elim (Bool-cases (r == j)) [
  | inl e ↦ let same : r ≡ j = ground arith in rw e (keep (rw (sym same) over))
  | inr e ↦ rw e over
]

pub IsOver-Invariant : (env : Env) (r : Ref) → Invariant env (IsOver r)
unfolding send schedule change modify take_timer take_down register_invite invited unregister_invite
    register_context make_call register_outbound update
IsOver-Invariant env r =
    let old = IsConsistent-Invariant env in
    record {
      of_sip = λ b h. old.of_sip b h.consistent;
      of_h248 = λ b h. old.of_h248 b h.consistent;
      of_contexts = λ b h. old.of_contexts b h.consistent;
      of_outbound = λ b h. old.of_outbound b h.consistent;
      of_timers = λ b h. old.of_timers b h.consistent;
      aside = λ f is b h. record {
        consistent = old.aside f is b h.consistent;
        made = rw (is.next_ref b) h.made;
        released = rw (is.cell b) h.released;
      };
      gentle = λ j f is b h. record {
        consistent = old.gentle j f is b h.consistent;
        made = h.made;
        released =
            update-released b.cell j (f (b.cell j)) r h.released
              (λ e. rw (is.released (b.cell j)) e);
      };
      sends = λ o is b h. record {
        consistent = old.sends o is b h.consistent;
        made = h.made;
        released = h.released;
      };
      schedules = λ delay task b is h. record {
        consistent = old.schedules delay task b is h.consistent;
        made = h.made;
        released = h.released;
      };
      takes_timer = λ i b h. record {
        consistent = old.takes_timer i b h.consistent;
        made = h.made;
        released = h.released;
      };
      takes_down = λ j b h. record {
        consistent = old.takes_down j b h.consistent;
        made = h.made;
        released = update-released b.cell j _ r h.released (λ e. refl);
      };
      reports = λ j phase b b' lt free report h. record {
        consistent = old.reports j phase b b' lt free report h.consistent;
        made = rw report.next_ref h.made;
        released = rw (report-Agrees j phase b b' report r).released h.released;
      };
      invites = λ j i peer b lt alive idle key h. record {
        consistent = old.invites j i peer b lt alive idle key h.consistent;
        made = h.made;
        released = update-released b.cell j _ r h.released (λ e. e);
      };
      uninvites = λ j i b own h. record {
        consistent = old.uninvites j i b own h.consistent;
        made = h.made;
        released = update-released b.cell j _ r h.released (λ e. e);
      };
      registers = λ j b lt alive h. record {
        consistent = old.registers j b lt alive h.consistent;
        made = h.made;
        released = h.released;
      };
      makes = λ c new b h. record {
        consistent = old.makes c new b h.consistent;
        made = omega arith;
        released = let lt = h.made in let over = h.released in ground arith;
      };
      outbound = λ c new from key b h. record {
        consistent = old.outbound c new from key b h.consistent;
        made = omega arith;
        released = let lt = h.made in let over = h.released in ground arith;
      };
    }

-- Later states of a run
pub data Later (env : Env) : Bridge → Bridge → Type 0 where
  now : (b : Bridge) → Later env b b
  next : (b b' b'' : Bridge) → Later env b b' → Step env b' b'' → Later env b b''

Later-IsOver : {env : Env} (r : Ref) (b b' : Bridge) → Later env b b' → IsOver r b → IsOver r b'
Later-IsOver r _ _ (now b) h = h
Later-IsOver {env} r _ _ (next b b' b'' before s) h =
    step (IsOver-Invariant env r) b' b'' s (Later-IsOver r b b' before h)

-- In a state that a run reaches, a call that has been made and is released stays released in
-- every later state, and there no Call-ID and no context leads to it, nor is it the outbound
-- call.
pub released_stays :
    (env : Env) (b b' : Bridge)
    → Reach env b
    → Later env b b'
    → (r : Ref) → r < b.next_ref
    → (b.cell r).released ≡ true
    → ((b'.cell r).released ≡ true)
      × ((k : Bytes) → ¬ (Map.lookup k b'.calls_by_sip ≡ some r))
      × ((k : Bytes) → ¬ (Map.lookup k b'.calls_by_h248 ≡ some r))
      × ¬ (b'.outbound_call ≡ some r)
unfolding IsSipEntry IsContextEntry
released_stays env b b' run later r lt over =
    let h =
      Later-IsOver r b b' later
        (record { consistent = reach-IsConsistent env b run; made = lt; released = over }) in
    let gone = h.released in
    (
      gone,
      λ k e. let found = (Entries-lookup _ _ h.consistent.by_call_id k r e).1 in ground arith,
      λ k e. let found = (Entries-lookup _ _ h.consistent.by_context k r e).1 in ground arith,
      λ e.
          let found = (outbound-known _ b'.cell b'.outbound_call h.consistent.outbound r e).1 in
          ground arith,
    )
