-- ===== src/H248/Server/Invariant.antt =====
-- Where the registration waits, compared with the server's fields.
use megaco_sip_gateway.Prelude.{
  ℕ, zero, suc, ℤ, pos, negsuc, Bool, Bytes, not, ◌&&◌, is_empty, same, ◌+◌, ◌%◌, ◌≤◌, ◌<◌,
  same_refl, Bool-cases, true, false, [], ltb, length, ◌≡◌, refl, arith, ◌⊎◌, inl, inr,
}
use megaco_sip_gateway.Prelude.Strings.{trim_space}
use megaco_sip_gateway.Net.{addr_string}
use megaco_sip_gateway.H248.Server.Listener.{UdpServer, RegistrationResult}
use megaco_sip_gateway.H248.Server.Registration.{
  Attempt, Loop, returned, awaiting, guarding, pausing, System, Setup, max_retry_delay, positive_or,
  max_attempts, retry, remote_at, index_of, first_attempt, longer,
}
use megaco_sip_gateway.H248.Server.Loop.{
  send_attempt, begin_attempts, register_termination, try_candidate, candidate_failed, next_attempt,
  active_server, activate, termination_registered, on_result, lost_server, fail_over,
}

-- An address is empty, or a candidate's.
abbrev pub Known : Setup → Bytes → Type 0
Known u address =
    (address ≡ []) ⊎ ((j : ℕ) × (j < length u.remotes) × (address ≡ addr_string (remote_at u j)))

-- An attempt is in the bounds of the loops.
pub record InBounds (u : Setup) (a : Attempt) : Type 0 where
  pub counted : 1 ≤ a.attempt
  pub limited : a.attempt ≤ max_attempts u.cfg
  pub candidate : a.offset < length u.remotes
  pub delayed : (a.delay ≤ max_retry_delay) ⊎ (a.delay ≤ retry u.cfg)

-- No registration is active.
pub record IsIdle (u : Setup) (s : UdpServer) : Type 0 where
  pub unregistered : s.registered ≡ false
  pub no_mgc : s.active_mgc ≡ []
  pub remote_known : Known u s.service_change_remote

abbrev pub At : Setup → UdpServer → Loop → Type 0
At u s returned = Unit
At u s (awaiting a) =
    InBounds u a
    × IsIdle u s
    × (s.service_change_tid ≡ a.transaction_id)
    × (s.service_change_remote ≡ addr_string (remote_at u (index_of u a)))
At u s (guarding i) =
    (i < length u.remotes)
    × (s.registered ≡ true)
    × (s.active_mgc ≡ addr_string (remote_at u i))
    × (s.service_change_tid ≡ [])
    × (s.service_change_remote ≡ [])
At u s (pausing start) = IsIdle u s × (0 < length u.remotes)

pub record IsValid (u : Setup) (y : System) : Type 0 where
  pub mgc_known : Known u y.server.active_mgc
  pub remote_known : Known u y.server.service_change_remote
  pub place : At u y.server y.loop

pub mod-lt : (a n : ℕ) → 0 < n → a % n < n
mod-lt a n h = grind arith

pub index_of-lt : (u : Setup) (a : Attempt) → 0 < length u.remotes → index_of u a < length u.remotes
unfolding index_of
index_of-lt u a h = mod-lt (a.start_index + a.offset) (length u.remotes) h

positive_or-pos : (default : ℕ) (z : ℤ) → 1 ≤ default → 1 ≤ positive_or default z
positive_or-pos default (pos zero) h = h
positive_or-pos default (pos (suc n)) h = omega arith
positive_or-pos default (negsuc n) h = h

pub max_attempts_pos : (u : Setup) → 1 ≤ max_attempts u.cfg
unfolding max_attempts
max_attempts_pos u = positive_or-pos 3 u.cfg.service_change_max_attempts (omega arith)

module _ (u : Setup) (y : System) (idle : IsIdle u y.server)
    (some_remote : 0 < length u.remotes) where
  pub begin_attempts-IsValid : (a : Attempt) → InBounds u a → IsValid u (begin_attempts u a y)
  unfolding begin_attempts
  begin_attempts-IsValid a b =
      let here : Known u (addr_string (remote_at u (index_of u a))) =
        inr (index_of u a, index_of-lt u a some_remote, refl) in
      record {
        mgc_known = inl idle.no_mgc;
        remote_known = here;
        place = (
          b,
          record { unregistered = idle.unregistered; no_mgc = idle.no_mgc; remote_known = here },
          refl,
          refl,
        );
      }

  register_termination-IsValid :
      (start offset : ℕ) (physical : Bool) (now : ℕ)
      → offset < length u.remotes
      → IsValid u (register_termination u start offset physical now y)
  unfolding register_termination first_attempt
  register_termination-IsValid start offset physical now h =
      begin_attempts-IsValid (first_attempt u start offset physical now) (record {
        counted = omega arith;
        limited = max_attempts_pos u;
        candidate = h;
        delayed = inr (omega arith);
      })

  pub try_candidate-IsValid :
      (start offset now : ℕ) → IsValid u (try_candidate u start offset now y)
  unfolding try_candidate
  try_candidate-IsValid start offset now = elim (Bool-cases (ltb offset (length u.remotes))) [
    | inl e ↦ rw e (register_termination-IsValid start offset false now (ground (arith, e)))
    | inr e ↦ rw e (record {
      mgc_known = inl idle.no_mgc;
      remote_known = idle.remote_known;
      place = (idle, some_remote);
    })
  ]

abbrev pub Waiting : Setup → Attempt → UdpServer → Type 0
Waiting u a s = At u s (awaiting a)

longer-le : (delay : ℕ) → (longer delay ≤ max_retry_delay) ⊎ (longer delay ≤ delay)
unfolding longer
longer-le delay = ground arith

-- The delay after one within the bounds is within them.
pub longer-bounds :
    (u : Setup) (delay : ℕ)
    → (delay ≤ max_retry_delay) ⊎ (delay ≤ retry u.cfg)
    → (longer delay ≤ max_retry_delay) ⊎ (longer delay ≤ retry u.cfg)
longer-bounds u delay h = ground (arith, longer-le delay)

module _ (u : Setup) (a : Attempt) (y : System) (w : Waiting u a y.server) where
  some_remote : 0 < length u.remotes
  some_remote = omega (arith, w.0.candidate)

  candidate_failed-IsValid : (now : ℕ) → IsValid u (candidate_failed u a now y)
  unfolding candidate_failed
  candidate_failed-IsValid now = elim (Bool-cases y.context_done) [
    | inl e ↦
        simp e (record { mgc_known = inl w.1.no_mgc; remote_known = w.1.remote_known; place = tt })
    | inr e ↦ simp e (try_candidate-IsValid u y w.1 some_remote a.start_index (a.offset + 1) now)
  ]

  next_attempt-IsValid :
      (delay now : ℕ)
      → (delay ≤ max_retry_delay) ⊎ (delay ≤ retry u.cfg)
      → IsValid u (next_attempt u a delay now y)
  unfolding next_attempt send_attempt index_of
  next_attempt-IsValid delay now d = elim (Bool-cases (ltb a.attempt (max_attempts u.cfg))) [
    | inl e ↦ rw e (record {
      mgc_known = inl w.1.no_mgc;
      remote_known = w.1.remote_known;
      place = (
        record {
          counted = omega arith;
          limited = ground (arith, e);
          candidate = w.0.candidate;
          delayed = d;
        },
        w.1,
        w.2,
        w.3,
      );
    })
    | inr e ↦ rw e (candidate_failed-IsValid now)
  ]

  activate-IsValid : (now : ℕ) → IsValid u (activate u a now y)
  unfolding activate active_server
  activate-IsValid now =
      let lt = index_of-lt u a some_remote in
      rw (same_refl y.server.service_change_tid) (record {
        mgc_known = inr (index_of u a, lt, refl);
        remote_known = inl refl;
        place = (lt, refl, refl, refl, refl);
      })

  termination_registered-IsValid : (now : ℕ) → IsValid u (termination_registered u a now y)
  unfolding termination_registered
  termination_registered-IsValid now =
      elim (Bool-cases (not a.physical && not (is_empty (trim_space u.cfg.physical_termination)))) [
        | inl e ↦ rw e (
            register_termination-IsValid u y w.1 some_remote a.start_index a.offset true now
              w.0.candidate)
        | inr e ↦ rw e (activate-IsValid now)
      ]

  pub on_result-IsValid : (r : RegistrationResult) (now : ℕ) → IsValid u (on_result u a r now y)
  unfolding on_result
  on_result-IsValid r now = elim (Bool-cases (same r.transaction_id a.transaction_id)) [
    | inl e ↦ rw e (elim (Bool-cases r.accepted) [
      | inl f ↦ rw f (termination_registered-IsValid now)
      | inr f ↦ rw f (candidate_failed-IsValid now)
    ])
    | inr e ↦ rw e (next_attempt-IsValid a.delay now w.0.delayed)
  ]

  pub passed-IsValid : (now : ℕ) → IsValid u (next_attempt u a (longer a.delay) now y)
  passed-IsValid now =
      next_attempt-IsValid (longer a.delay) now (longer-bounds u a.delay w.0.delayed)

-- The loop after the failure of an MGC
pub fail_over-IsValid :
    (u : Setup) (y : System) (i now : ℕ)
    → At u y.server (guarding i)
    → IsValid u (fail_over u i now y)
unfolding fail_over lost_server
fail_over-IsValid u y i now g =
    try_candidate-IsValid u _
      (rw g.2
        (rw same_refl (record { unregistered = refl; no_mgc = refl; remote_known = inl g.4 })))
      (omega (arith, g.0)) _ 0 now
