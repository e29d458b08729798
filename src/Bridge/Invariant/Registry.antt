-- ===== src/Bridge/Invariant/Registry.antt =====
-- About the call maps of internal/bridge.
use megaco_sip_gateway.Prelude.{
  eq_refl, ℕ, ◌<◌, is_empty, same_iff, true, false, Option, none, some, ◌≡◌, refl, arith, sym,
}
use megaco_sip_gateway.Prelude.Entries.{
  Entries, Entries-lookup, Entries-map, Entries-delete, Entries-insert,
}
use megaco_sip_gateway.Bridge.State.{
  Ref, Call, sip_to_h248, Bridge, Env, update, change, send, schedule, modify,
}
use megaco_sip_gateway.Bridge.Invite.{register_invite, unregister_invite, invited}
use megaco_sip_gateway.Bridge.Admission.{register_outbound}
use megaco_sip_gateway.Bridge.FromMgc.Add.{make_call, register_context}
use megaco_sip_gateway.Bridge.Run.{new_bridge, take_timer, Reach}
use megaco_sip_gateway.Bridge.Invariant.{Invariant}
use megaco_sip_gateway.Bridge.Invariant.Steps.{reach}
use megaco_sip_gateway.Bridge.Invite.{Invite}
use megaco_sip_gateway.Net.{UdpAddr}
use megaco_sip_gateway.Bridge.Invariant.Consistent.{
  IsSipEntry, IsContextEntry, IsOutbound, TasksBelow, IsConsistent, refs_of-AllBelow,
  TasksBelow-get, TasksBelow-without, Agrees-IsConsistent, change-Agrees, report-Agrees,
  take_down-IsConsistent, Agrees,
}

outbound_of :
    (n : ℕ) (cell : Ref → Call) (r : Ref) (c : Call)
    → c.released ≡ (cell r).released
    → c.direction ≡ (cell r).direction
    → (o : Option Ref) → IsOutbound n cell o
    → IsOutbound n (update cell r c) o
unfolding IsOutbound update
outbound_of n cell r c released direction none h = tt
outbound_of n cell r c released direction (some j) (lt, alive, from) =
    (lt, ground arith, ground arith)

register_invite-IsConsistent :
    (r : Ref) (i : Invite) (peer : UdpAddr) (b : Bridge)
    → r < b.next_ref
    → (b.cell r).released ≡ false
    → is_empty (b.cell r).sip_call_id ≡ true
    → is_empty i.call_id ≡ false
    → IsConsistent b
    → IsConsistent (register_invite r i peer b)
unfolding register_invite invited update IsSipEntry IsContextEntry
register_invite-IsConsistent r i peer b lt alive idle key h = record {
  by_call_id =
      Entries-insert _ i.call_id r (lt, ground (arith, eq_refl r), ground (arith, eq_refl r), key) _
        (Entries-map _ _ (λ k j (lj, live, k_is, there). (lj, ground arith, ground arith, there)) _
          h.by_call_id);
  by_context =
      Entries-map _ _ (λ k j (lj, live, k_is). (lj, ground arith, ground arith)) _ h.by_context;
  outbound = outbound_of b.next_ref b.cell r _ refl refl b.outbound_call h.outbound;
  tasks = h.tasks;
}

unregister_invite-IsConsistent :
    (r : Ref) (i : Invite) (b : Bridge)
    → (b.cell r).sip_call_id ≡ i.call_id
    → IsConsistent b
    → IsConsistent (unregister_invite r i b)
unfolding unregister_invite update IsSipEntry IsContextEntry
unregister_invite-IsConsistent r i b own h = record {
  by_call_id =
      Entries-delete _ _ _
        (λ k j other (lj, live, k_is, there).
          (lj, ground arith, ground (arith, same_iff k i.call_id), there))
        _ h.by_call_id;
  by_context =
      Entries-map _ _ (λ k j (lj, live, k_is). (lj, ground arith, ground arith)) _ h.by_context;
  outbound = outbound_of b.next_ref b.cell r _ refl refl b.outbound_call h.outbound;
  tasks = h.tasks;
}

register_context-IsConsistent :
    (r : Ref) (b : Bridge)
    → r < b.next_ref
    → (b.cell r).released ≡ false
    → IsConsistent b
    → IsConsistent (register_context r b)
unfolding register_context IsContextEntry
register_context-IsConsistent r b lt alive h = record {
  by_call_id = h.by_call_id;
  by_context = Entries-insert _ _ r (lt, alive, refl) _ h.by_context;
  outbound = h.outbound;
  tasks = h.tasks;
}

new-Agrees :
    (n : ℕ) (cell : Ref → Call) (c : Call) (j : Ref) → j < n → Agrees cell (update cell n c) j
unfolding update
new-Agrees n cell c j lt = record {
  released = ground arith;
  sip_call_id = ground arith;
  context = ground arith;
  direction = ground arith;
}

make_call-IsConsistent : (c : Call) (b : Bridge) → IsConsistent b → IsConsistent (make_call c b)
unfolding make_call
make_call-IsConsistent c b h =
    Agrees-IsConsistent b _ (omega arith) (new-Agrees b.next_ref b.cell c) refl refl refl refl h

register_outbound-IsConsistent :
    (c : Call) (b : Bridge)
    → c.released ≡ false
    → c.direction ≡ sip_to_h248
    → is_empty c.sip_call_id ≡ false
    → IsConsistent b
    → IsConsistent (register_outbound c b)
unfolding register_outbound make_call IsSipEntry IsOutbound update
register_outbound-IsConsistent c b alive from key h =
    let made = make_call-IsConsistent c b h in
    let n = b.next_ref in
    record {
      by_call_id =
          Entries-insert _ c.sip_call_id n
            (omega arith, ground (arith, eq_refl n), ground (arith, eq_refl n), key) _
            made.by_call_id;
      by_context = made.by_context;
      outbound = (omega arith, ground (arith, eq_refl n), ground (arith, eq_refl n));
      tasks = made.tasks;
    }

pub outbound-known :
    (n : ℕ) (cell : Ref → Call) (o : Option Ref)
    → IsOutbound n cell o
    → (r : Ref) → o ≡ some r
    → (r < n) × ((cell r).released ≡ false)
unfolding IsOutbound
outbound-known n cell none h r e = absurd (ground arith)
outbound-known n cell (some j) (lt, alive, from) r e =
    let is : j ≡ r = ground arith in (omega arith, rw (sym is) alive)

pub IsConsistent-Invariant : (env : Env) → Invariant env IsConsistent
unfolding send schedule change modify take_timer IsSipEntry IsContextEntry TasksBelow
IsConsistent-Invariant env = record {
  of_sip = λ b h k r e. (Entries-lookup _ _ h.by_call_id k r e).0;
  of_h248 = λ b h k r e. (Entries-lookup _ _ h.by_context k r e).0;
  of_contexts = λ b h. refs_of-AllBelow _ b.cell _ h.by_context;
  of_outbound = λ b h r e. outbound-known _ b.cell b.outbound_call h.outbound r e;
  of_timers = λ b h i at_ task e. TasksBelow-get _ b.timers h.tasks i at_ task e;
  aside = λ f is b h.
      Agrees-IsConsistent b (f b) (rw (is.next_ref b) (omega arith))
        (λ r lt.
          rw (is.cell b)
            (record { released = refl; sip_call_id = refl; context = refl; direction = refl }))
        (is.calls_by_sip b) (is.calls_by_h248 b) (is.outbound_call b) (is.timers b) h;
  gentle = λ r f is b h.
      Agrees-IsConsistent b (change r f b).1 (omega arith)
        (λ j lt.
          change-Agrees b.cell r (f (b.cell r)) (is.released _) (is.sip_call_id _)
            (is.h248_context_id _) (is.direction _) j)
        refl refl refl refl h;
  sends = λ o is b h. record {
    by_call_id = h.by_call_id;
    by_context = h.by_context;
    outbound = h.outbound;
    tasks = h.tasks;
  };
  schedules = λ delay task b is h. record {
    by_call_id = h.by_call_id;
    by_context = h.by_context;
    outbound = h.outbound;
    tasks = (is, h.tasks);
  };
  takes_timer = λ i b h. record {
    by_call_id = h.by_call_id;
    by_context = h.by_context;
    outbound = h.outbound;
    tasks = TasksBelow-without _ i b.timers h.tasks;
  };
  takes_down = take_down-IsConsistent;
  reports = λ r phase b b' lt free report h.
      Agrees-IsConsistent b b' (rw report.next_ref (omega arith))
        (λ j lj. report-Agrees r phase b b' report j) report.calls_by_sip report.calls_by_h248
        report.outbound_call report.timers h;
  invites =
      λ r i peer b lt alive idle key h. register_invite-IsConsistent r i peer b lt alive idle key h;
  uninvites = λ r i b own h. unregister_invite-IsConsistent r i b own h;
  registers = λ r b lt alive h. register_context-IsConsistent r b lt alive h;
  makes = λ c new b h. make_call-IsConsistent c b h;
  outbound = λ c new from key b h. register_outbound-IsConsistent c b new.released from key h;
}

pub new_bridge-IsConsistent : (env : Env) (now : ℕ) → IsConsistent (new_bridge env.cfg now)
unfolding new_bridge Entries IsOutbound TasksBelow
new_bridge-IsConsistent env now = record {
  by_call_id = tt;
  by_context = tt;
  outbound = tt;
  tasks = tt;
}

-- In every state that a run of the bridge reaches, a Call-ID or a context of the maps leads to a
-- call that is there, is not released and has this Call-ID or context; the outbound call is
-- there, not released and comes from the PBX; and no timer is for a call that has not been made.
pub reach-IsConsistent : (env : Env) (b : Bridge) → Reach env b → IsConsistent b
reach-IsConsistent env b run =
    reach (IsConsistent-Invariant env) (new_bridge-IsConsistent env) b run
