-- ===== src/H248/Server/Phase.antt =====
-- The choice of an MGC without its details: candidates are tried in turn, one after the other.
use megaco_sip_gateway.Prelude.{
  ℕ, ◌+◌, ◌%◌, ◌≤◌, ◌<◌, same, is_empty, Bool-cases, true, not, ◌&&◌, List, [], ◌∷◌, length, ltb,
  if◌then◌else◌, ◌≡◌, refl, arith, ◌⊎◌, inl, inr,
}
use megaco_sip_gateway.Prelude.Strings.{trim_space}
use megaco_sip_gateway.H248.Server.Listener.{RegistrationResult}
use megaco_sip_gateway.H248.Server.Registration.{
  Attempt, Loop, returned, awaiting, guarding, pausing, System, Setup, max_attempts, longer,
  first_attempt, index_of,
}
use megaco_sip_gateway.H248.Server.Loop.{
  send_attempt, begin_attempts, register_termination, try_candidate, candidate_failed, next_attempt,
  activate, termination_registered, on_result, on_timer, fail_over, has_failed, on_tick, replied,
  on_wake, without_first, is_awaiting, take_first, take_result, on_done,
}
use megaco_sip_gateway.H248.Server.Runs.{
  receive, Step, receives, responds, timer, ticks, result, cancel, ends, Reach,
}
use megaco_sip_gateway.H248.Server.Invariant.{At}
use megaco_sip_gateway.H248.Server.Steps.{reach-IsValid}

pub data Phase : Type 0 where
  -- the candidate `(start + offset) % n` is asked
  seeking : ℕ → ℕ → Phase
  active : ℕ → Phase
  -- a round from `start` was without success
  resting : ℕ → Phase
  stopped : Phase

-- The contract of the registration with `n` candidates
pub data Move (n : ℕ) : Phase → Phase → Type 0 where
  try_next : (s k : ℕ) → k + 1 < n → Move n (seeking s k) (seeking s (k + 1))
  give_up : (s k : ℕ) → n ≤ k + 1 → Move n (seeking s k) (resting s)
  succeed : (s k : ℕ) → Move n (seeking s k) (active ((s + k) % n))
  lose : (i : ℕ) → i < n → Move n (active i) (seeking ((i + 1) % n) 0)
  again : (s : ℕ) → Move n (resting s) (seeking s 0)
  stop : (p : Phase) → Move n p stopped

abbrev pub phase : Loop → Phase
phase returned = stopped
phase (awaiting a) = seeking a.start_index a.offset
phase (guarding i) = active i
phase (pausing start) = resting start

-- Nothing moves, or there is one move.
abbrev pub Moves : ℕ → Phase → Phase → Type 0
Moves n p q = (p ≡ q) ⊎ Move n p q

module _ (u : Setup) where
  candidate-phase :
      (start offset now : ℕ) (y : System)
      → phase (try_candidate u start offset now y).loop
        ≡ (if ltb offset (length u.remotes) then seeking start offset else resting start)
  unfolding try_candidate register_termination begin_attempts send_attempt first_attempt
  candidate-phase start offset now y = elim (Bool-cases (ltb offset (length u.remotes))) [
    | inl e ↦ rw e refl
    | inr e ↦ rw e refl
  ]

  failed-Moves :
      (a : Attempt) (now : ℕ) (y : System)
      → Moves (length u.remotes) (phase (awaiting a)) (phase (candidate_failed u a now y).loop)
  unfolding candidate_failed
  failed-Moves a now y = elim (Bool-cases y.context_done) [
    | inl e ↦ simp e (inr (stop _))
    | inr e ↦ simp e (
        rw (candidate-phase a.start_index (a.offset + 1) now y)
          (elim (Bool-cases (ltb (a.offset + 1) (length u.remotes))) [
            | inl f ↦ rw f (inr (try_next a.start_index a.offset (ground (arith, f))))
            | inr f ↦ rw f (inr (give_up a.start_index a.offset (ground (arith, f))))
          ]))
  ]

  attempt-Moves :
      (a : Attempt) (delay now : ℕ) (y : System)
      → Moves (length u.remotes) (phase (awaiting a)) (phase (next_attempt u a delay now y).loop)
  unfolding next_attempt send_attempt
  attempt-Moves a delay now y = elim (Bool-cases (ltb a.attempt (max_attempts u.cfg))) [
    | inl e ↦ rw e (inl refl)
    | inr e ↦ rw e (failed-Moves a now y)
  ]

  registered-Moves :
      (a : Attempt) (now : ℕ) (y : System)
      → Moves
          (length u.remotes)
          (phase (awaiting a))
          (phase (termination_registered u a now y).loop)
  unfolding termination_registered register_termination begin_attempts send_attempt first_attempt
      activate index_of
  registered-Moves a now y =
      elim (Bool-cases (not a.physical && not (is_empty (trim_space u.cfg.physical_termination)))) [
        | inl e ↦ rw e (inl refl)
        | inr e ↦ rw e (inr (succeed a.start_index a.offset))
      ]

  result-Moves :
      (a : Attempt) (r : RegistrationResult) (now : ℕ) (y : System)
      → Moves (length u.remotes) (phase (awaiting a)) (phase (on_result u a r now y).loop)
  unfolding on_result
  result-Moves a r now y = elim (Bool-cases (same r.transaction_id a.transaction_id)) [
    | inl e ↦ rw e (elim (Bool-cases r.accepted) [
      | inl f ↦ rw f (registered-Moves a now y)
      | inr f ↦ rw f (failed-Moves a now y)
    ])
    | inr e ↦ rw e (attempt-Moves a a.delay now y)
  ]

  timer-Moves :
      (now : ℕ) (y : System) (l : Loop)
      → At u y.server l
      → Moves (length u.remotes) (phase l) (phase (on_timer u now (record y { loop = l })).loop)
  unfolding on_timer
  timer-Moves now y returned h = inl refl
  timer-Moves now y (awaiting a) h =
      attempt-Moves a (longer a.delay) now (record y { loop = awaiting a })
  timer-Moves now y (guarding i) h = inl refl
  timer-Moves now y (pausing start) h =
      rw (candidate-phase start 0 now (record y { loop = pausing start })) (
        let some_remote : ltb 0 (length u.remotes) ≡ true = ground (arith, h.1) in
        rw some_remote (inr (again start)))

  tick-Moves :
      (now now' : ℕ) (y : System) (l : Loop)
      → At u y.server l
      → Moves (length u.remotes) (phase l) (phase (on_tick u now now' (record y { loop = l })).loop)
  unfolding on_tick fail_over
  tick-Moves now now' y returned h = inl refl
  tick-Moves now now' y (awaiting a) h = inl refl
  tick-Moves now now' y (pausing start) h = inl refl
  tick-Moves now now' y (guarding i) h = elim (Bool-cases (has_failed u i now y.server)) [
    | inl e ↦ rw e (
        rw (candidate-phase ((i + 1) % length u.remotes) 0 now' _) (
          let some_remote : ltb 0 (length u.remotes) ≡ true = ground (arith, h.0) in
          rw some_remote (inr (lose i h.0))))
    | inr e ↦ rw e (inl refl)
  ]

  reply-Moves :
      (r : RegistrationResult) (now : ℕ) (y : System) (l : Loop)
      → Moves
          (length u.remotes)
          (phase l)
          (phase (on_wake u (replied r now) (record y { loop = l })).loop)
  unfolding on_wake
  reply-Moves r now y (awaiting a) = result-Moves a r now (record y { loop = awaiting a })
  reply-Moves r now y returned = inl refl
  reply-Moves r now y (guarding i) = inl refl
  reply-Moves r now y (pausing start) = inl refl

  channel-Moves :
      (now : ℕ) (y : System)
      → Moves (length u.remotes) (phase y.loop) (phase (take_result u now y).loop)
  unfolding take_result without_first
  channel-Moves now y = go y.server.service_change_reply
    where
      go :
          (l : List RegistrationResult)
          → Moves (length u.remotes) (phase y.loop) (phase (take_first u now y l).loop)
      go [] = inl refl
      go (r ∷ rest) = elim (Bool-cases (is_awaiting y.loop)) [
        | inl e ↦ simp e (reply-Moves r now (without_first rest y) y.loop)
        | inr e ↦ simp e (inl refl)
      ]

  done-Moves : (y : System) → Moves (length u.remotes) (phase y.loop) (phase (on_done y).loop)
  unfolding on_done
  done-Moves y = elim (Bool-cases y.context_done) [
    | inl e ↦ simp e (inr (stop (phase y.loop)))
    | inr e ↦ simp e (inl refl)
  ]

  -- In every run, a step of the server keeps the phase or makes one move of the contract: after
  -- a candidate comes the next, or a rest after the last one; a candidate is active only after
  -- it has been asked; a lost MGC is followed by the one behind it; after a rest the round
  -- begins again; and a stop is for good.
  pub step-Moves :
      (y y' : System)
      → Reach u y
      → Step u y y'
      → Moves (length u.remotes) (phase y.loop) (phase y'.loop)
  unfolding receive
  step-Moves _ _ r (receives y packet remote now) = inl refl
  step-Moves _ _ r (responds y key message) = inl refl
  step-Moves _ _ r (timer y now) = timer-Moves now y y.loop (reach-IsValid u y r).place
  step-Moves _ _ r (ticks y now now') = tick-Moves now now' y y.loop (reach-IsValid u y r).place
  step-Moves _ _ r (result y now) = channel-Moves now y
  step-Moves _ _ r (cancel y) = inl refl
  step-Moves _ _ r (ends y) = done-Moves y
