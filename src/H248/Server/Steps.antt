-- ===== src/H248/Server/Steps.antt =====
-- The invariant of H248/Server/Invariant.antt and the steps of the server.
use megaco_sip_gateway.Prelude.{
  ◌≢◌, ◌↔◌, ℕ, ◌<◌, Bytes, Bool-cases, true, List, [], ◌∷◌, length, ltb, ◌≡◌, refl, ◌∙◌, arith, inl,
  inr,
}
use megaco_sip_gateway.Prelude.Result.{Result, ok, err}
use megaco_sip_gateway.Net.{UdpAddr, addr_string}
use megaco_sip_gateway.H248.Message.{Message}
use megaco_sip_gateway.H248.Parse.{ParseError, parse}
use megaco_sip_gateway.H248.Server.Listener.{
  new_udp_server, UdpServer, RegistrationResult, UdpServerConfig, on_message, on_parsed, handle,
  respond,
}
use megaco_sip_gateway.H248.Server.Registration.{
  Loop, returned, awaiting, guarding, pausing, System, Setup, remote_at,
}
use megaco_sip_gateway.H248.Server.Loop.{
  on_timer, on_tick, has_failed, take_result, on_wake, replied, on_done, registration_loop,
  is_awaiting, take_first, without_first,
}
use megaco_sip_gateway.H248.Server.Runs.{
  new_system, receive, Step, receives, responds, timer, ticks, result, cancel, ends, Reach, starts,
  goes,
}
use megaco_sip_gateway.H248.Server.Invariant.{
  At, IsIdle, IsValid, passed-IsValid, on_result-IsValid, fail_over-IsValid, try_candidate-IsValid,
}

-- The fields by which the registration goes are the same in two servers.
pub record Agree (s s' : UdpServer) : Type 0 where
  pub tid : s'.service_change_tid ≡ s.service_change_tid
  pub remote : s'.service_change_remote ≡ s.service_change_remote
  pub mgc : s'.active_mgc ≡ s.active_mgc
  pub active : s'.registered ≡ s.registered

Agree-IsIdle : (u : Setup) (s s' : UdpServer) → Agree s s' → IsIdle u s → IsIdle u s'
Agree-IsIdle u s s' a i = record {
  unregistered = a.active ∙ i.unregistered;
  no_mgc = a.mgc ∙ i.no_mgc;
  remote_known = rw a.remote i.remote_known;
}

Agree-At : (u : Setup) (s s' : UdpServer) (l : Loop) → Agree s s' → At u s l → At u s' l
Agree-At u s s' returned a h = tt
Agree-At u s s' (awaiting x) a h = (h.0, Agree-IsIdle u s s' a h.1, a.tid ∙ h.2, a.remote ∙ h.3)
Agree-At u s s' (guarding i) a h = (h.0, a.active ∙ h.1, a.mgc ∙ h.2, a.tid ∙ h.3, a.remote ∙ h.4)
Agree-At u s s' (pausing start) a h = (Agree-IsIdle u s s' a h.0, h.1)

Agree-IsValid :
    (u : Setup) (y : System) (s' : UdpServer)
    → Agree y.server s'
    → IsValid u y
    → IsValid u (record y { server = s' })
Agree-IsValid u y s' a v = record {
  mgc_known = rw a.mgc v.mgc_known;
  remote_known = rw a.remote v.remote_known;
  place = Agree-At u y.server s' y.loop a v.place;
}

on_message-Agree :
    (cfg : UdpServerConfig) (s : UdpServer) (m : Message) (remote : UdpAddr) (now : ℕ)
    → Agree s (on_message cfg s m remote now).1
unfolding on_message
on_message-Agree cfg s m remote now = ground arith

handle-Agree :
    (cfg : UdpServerConfig) (s : UdpServer) (packet : Bytes) (remote : UdpAddr) (now : ℕ)
    → Agree s (handle cfg s packet remote now).1
unfolding handle
handle-Agree cfg s packet remote now = go (parse packet)
  where
    go : (r : Result ParseError Message) → Agree s (on_parsed cfg s r remote now).1
    go (err e) = ground arith
    go (ok m) = on_message-Agree cfg s m remote now

pub timer-IsValid : (u : Setup) (now : ℕ) (y : System) → IsValid u y → IsValid u (on_timer u now y)
unfolding on_timer
timer-IsValid u now y v = go y.loop v.place
  where
    go : (l : Loop) → At u y.server l → IsValid u (on_timer u now (record y { loop = l }))
    go returned h = record { mgc_known = v.mgc_known; remote_known = v.remote_known; place = tt }
    go (awaiting a) h = passed-IsValid u a (record y { loop = awaiting a }) h now
    go (guarding i) h = record { mgc_known = v.mgc_known; remote_known = v.remote_known; place = h }
    go (pausing start) h =
        try_candidate-IsValid u (record y { loop = pausing start }) h.0 h.1 start 0 now

tick-IsValid :
    (u : Setup) (now now' : ℕ) (y : System) → IsValid u y → IsValid u (on_tick u now now' y)
unfolding on_tick
tick-IsValid u now now' y v = go y.loop v.place
  where
    kept : (l : Loop) → At u y.server l → IsValid u (record y { loop = l })
    kept l h = record { mgc_known = v.mgc_known; remote_known = v.remote_known; place = h }

    go : (l : Loop) → At u y.server l → IsValid u (on_tick u now now' (record y { loop = l }))
    go returned h = kept returned tt
    go (awaiting a) h = kept (awaiting a) h
    go (pausing start) h = kept (pausing start) h
    go (guarding i) h = elim (Bool-cases (has_failed u i now y.server)) [
      | inl e ↦ rw e (fail_over-IsValid u (record y { loop = guarding i }) i now' h)
      | inr e ↦ rw e (kept (guarding i) h)
    ]

pub reply-IsValid :
    (u : Setup) (y : System) (r : RegistrationResult) (now : ℕ)
    → IsValid u y
    → IsValid u (on_wake u (replied r now) y)
unfolding on_wake
reply-IsValid u y r now v = go y.loop v.place
  where
    go :
        (l : Loop) → At u y.server l → IsValid u (on_wake u (replied r now) (record y { loop = l }))
    go (awaiting a) h = on_result-IsValid u a (record y { loop = awaiting a }) h r now
    go returned h = record { mgc_known = v.mgc_known; remote_known = v.remote_known; place = h }
    go (guarding i) h = record { mgc_known = v.mgc_known; remote_known = v.remote_known; place = h }
    go (pausing start) h = record {
      mgc_known = v.mgc_known;
      remote_known = v.remote_known;
      place = h;
    }

result-IsValid : (u : Setup) (now : ℕ) (y : System) → IsValid u y → IsValid u (take_result u now y)
unfolding take_result without_first
result-IsValid u now y v = go y.server.service_change_reply
  where
    taken : (rest : List RegistrationResult) → IsValid u (without_first rest y)
    taken rest =
        Agree-IsValid u y (record y.server { service_change_reply = rest })
          (record { tid = refl; remote = refl; mgc = refl; active = refl }) v

    go : (l : List RegistrationResult) → IsValid u (take_first u now y l)
    go [] = v
    go (r ∷ rest) = elim (Bool-cases (is_awaiting y.loop)) [
      | inl e ↦ simp e (reply-IsValid u (without_first rest y) r now (taken rest))
      | inr e ↦ simp e v
    ]

done-IsValid : (u : Setup) (y : System) → IsValid u y → IsValid u (on_done y)
unfolding on_done
done-IsValid u y v = elim (Bool-cases y.context_done) [
  | inl e ↦ simp e (record { mgc_known = v.mgc_known; remote_known = v.remote_known; place = tt })
  | inr e ↦ simp e v
]

pub step-IsValid : (u : Setup) (y y' : System) → Step u y y' → IsValid u y → IsValid u y'
unfolding receive respond
step-IsValid u _ _ (receives y packet remote now) v =
    Agree-IsValid u y _ (handle-Agree u.cfg y.server packet remote now) v
step-IsValid u _ _ (responds y key message) v =
    Agree-IsValid u y _ (record { tid = refl; remote = refl; mgc = refl; active = refl }) v
step-IsValid u _ _ (timer y now) v = timer-IsValid u now y v
step-IsValid u _ _ (ticks y now now') v = tick-IsValid u now now' y v
step-IsValid u _ _ (result y now) v = result-IsValid u now y v
step-IsValid u _ _ (cancel y) v = record {
  mgc_known = v.mgc_known;
  remote_known = v.remote_known;
  place = v.place;
}
step-IsValid u _ _ (ends y) v = done-IsValid u y v

start-IsValid : (u : Setup) (now : ℕ) → IsValid u (registration_loop u now new_system)
unfolding registration_loop new_udp_server
start-IsValid u now = elim (Bool-cases (ltb 0 (length u.remotes))) [
  | inl e ↦ rw e (
      try_candidate-IsValid u new_system
        (record { unregistered = refl; no_mgc = refl; remote_known = inl refl }) (ground (arith, e))
        0 0 now)
  | inr e ↦ rw e (record { mgc_known = inl refl; remote_known = inl refl; place = tt })
]

pub reach-IsValid : (u : Setup) (y : System) → Reach u y → IsValid u y
reach-IsValid u _ (starts now) = start-IsValid u now
reach-IsValid u _ (goes y y' before s) = step-IsValid u y y' s (reach-IsValid u y before)

-- The server serves the candidate `i`, and no registration is under way.
abbrev pub Serves : Setup → System → ℕ → Type 0
Serves u y i =
    (y.loop ≡ guarding i)
    × (i < length u.remotes)
    × (y.server.active_mgc ≡ addr_string (remote_at u i))
    × (y.server.service_change_tid ≡ [])
    × (y.server.service_change_remote ≡ [])

-- In every run, until the loop has returned, the server is registered exactly when the loop
-- guards a candidate in range, and then this candidate's address is that of the active MGC and
-- no ServiceChange is expected to be answered.
pub registered_iff :
    (u : Setup) (y : System)
    → Reach u y
    → y.loop ≢ returned
    → (y.server.registered ≡ true) ↔ ((i : ℕ) × Serves u y i)
registered_iff u y r n = go y.loop refl (reach-IsValid u y r).place
  where
    go :
        (l : Loop)
        → y.loop ≡ l
        → At u y.server l
        → (y.server.registered ≡ true) ↔ ((i : ℕ) × Serves u y i)
    go returned e h = absurd (n e)
    go (awaiting a) e h = ((λ t. cc (t, h.1.unregistered)), (λ (i, w). cc (e, w.0)))
    go (pausing start) e h = ((λ t. cc (t, h.0.unregistered)), (λ (i, w). cc (e, w.0)))
    go (guarding i) e h = ((λ t. (i, (e, h.0, h.2, h.3, h.4))), (λ _. h.1))
