-- ===== src/H248/Server/Progress.antt =====
-- How long a round of registrations of internal/h248/server.go can wait.
use megaco_sip_gateway.Prelude.{
  ℕ, ◌+◌, ◌*◌, ◌-◌, ◌≤◌, ◌<◌, same, is_empty, Bool-cases, false, not, ◌&&◌, List, [], ◌∷◌, length,
  ltb, if◌then◌else◌, ◌≡◌, refl, ap, arith, inl, inr,
}
use megaco_sip_gateway.Prelude.Strings.{trim_space}
use megaco_sip_gateway.H248.Server.Listener.{RegistrationResult}
use megaco_sip_gateway.H248.Server.Registration.{
  Attempt, Loop, returned, awaiting, guarding, pausing, System, Setup, max_attempts, longer,
  first_attempt,
}
use megaco_sip_gateway.H248.Server.Loop.{
  send_attempt, begin_attempts, register_termination, try_candidate, candidate_failed, next_attempt,
  activate, termination_registered, on_result, on_timer, Wake, passed, replied, on_wake,
  is_awaiting,
}
use megaco_sip_gateway.H248.Server.Runs.{Reach, drive}
use megaco_sip_gateway.H248.Server.Invariant.{At, InBounds, IsValid, max_attempts_pos}
use megaco_sip_gateway.H248.Server.Steps.{reach-IsValid, timer-IsValid, reply-IsValid}

-- The waits that are left to an attempt, its candidate and those behind it
left : Setup → Attempt → ℕ
left u a =
    (length u.remotes - a.offset - 1) * (2 * max_attempts u.cfg)
    + (if a.physical then 0 else max_attempts u.cfg)
    + (max_attempts u.cfg - a.attempt)

-- The loop has left the registration, or has fewer waits.
abbrev Less : Setup → ℕ → Loop → Type 0
Less u bound (awaiting a) = left u a < bound
Less u bound returned = Unit
Less u bound (guarding i) = Unit
Less u bound (pausing start) = Unit

step_down : (k m : ℕ) → 1 ≤ m → k * (2 * m) + m + (m - 1) < (k + 1) * (2 * m)
step_down k m h = grind arith

next_candidate :
    (n offset m x : ℕ)
    → 1 ≤ m
    → offset + 1 < n
    → (n - (offset + 1) - 1) * (2 * m) + m + (m - 1) < (n - offset - 1) * (2 * m) + x
next_candidate n offset m x h lt =
    let e : n - offset - 1 ≡ (n - (offset + 1) - 1) + 1 = omega arith in
    rw e (omega (arith, step_down (n - (offset + 1) - 1) m h))

module _ (u : Setup) (a : Attempt) (y : System) (b : InBounds u a) where
  candidate-Less :
      (now : ℕ) → Less u (left u a) (try_candidate u a.start_index (a.offset + 1) now y).loop
  unfolding try_candidate register_termination begin_attempts send_attempt first_attempt left
  candidate-Less now = elim (Bool-cases (ltb (a.offset + 1) (length u.remotes))) [
    | inl e ↦ rw e (
        omega (
          arith,
          next_candidate (length u.remotes) a.offset (max_attempts u.cfg)
              ((if a.physical then 0 else max_attempts u.cfg) + (max_attempts u.cfg - a.attempt))
              (max_attempts_pos u) (ground (arith, e)),
        ))
    | inr e ↦ rw e tt
  ]

  failed-Less : (now : ℕ) → Less u (left u a) (candidate_failed u a now y).loop
  unfolding candidate_failed
  failed-Less now = elim (Bool-cases y.context_done) [
    | inl e ↦ simp e tt
    | inr e ↦ simp e (candidate-Less now)
  ]

  attempt-Less : (delay now : ℕ) → Less u (left u a) (next_attempt u a delay now y).loop
  unfolding next_attempt send_attempt left
  attempt-Less delay now = elim (Bool-cases (ltb a.attempt (max_attempts u.cfg))) [
    | inl e ↦ rw e (ground (arith, e))
    | inr e ↦ rw e (unfold left in failed-Less now)
  ]

  registered-Less : (now : ℕ) → Less u (left u a) (termination_registered u a now y).loop
  unfolding termination_registered register_termination begin_attempts send_attempt first_attempt
      activate left
  registered-Less now =
      elim (Bool-cases (not a.physical && not (is_empty (trim_space u.cfg.physical_termination)))) [
        | inl e ↦ rw e (ground (arith, e, b.counted, b.limited))
        | inr e ↦ rw e tt
      ]

  result-Less : (r : RegistrationResult) (now : ℕ) → Less u (left u a) (on_result u a r now y).loop
  unfolding on_result
  result-Less r now = elim (Bool-cases (same r.transaction_id a.transaction_id)) [
    | inl e ↦ rw e (elim (Bool-cases r.accepted) [
      | inl f ↦ rw f (registered-Less now)
      | inr f ↦ rw f (failed-Less now)
    ])
    | inr e ↦ rw e (attempt-Less a.delay now)
  ]

Less-le : (u : Setup) (n m : ℕ) (l : Loop) → n ≤ m → Less u n l → Less u m l
Less-le u n m returned le h = tt
Less-le u n m (awaiting a) le h = omega arith
Less-le u n m (guarding i) le h = tt
Less-le u n m (pausing start) le h = tt

wake-Less :
    (u : Setup) (w : Wake) (a : Attempt) (y : System)
    → InBounds u a
    → Less u (left u a) (on_wake u w (record y { loop = awaiting a })).loop
unfolding on_wake on_timer
wake-Less u (passed now) a y b =
    attempt-Less u a (record y { loop = awaiting a }) b (longer a.delay) now
wake-Less u (replied r now) a y b = result-Less u a (record y { loop = awaiting a }) b r now

wake-IsValid : (u : Setup) (w : Wake) (y : System) → IsValid u y → IsValid u (on_wake u w y)
unfolding on_wake
wake-IsValid u (passed now) y v = timer-IsValid u now y v
wake-IsValid u (replied r now) y v = reply-IsValid u y r now v

drive_ends :
    (u : Setup) (ws : List Wake) (y : System)
    → IsValid u y
    → Less u (length ws) y.loop
    → is_awaiting (drive u ws y).loop ≡ false
unfolding drive is_awaiting
drive_ends u [] y v lt = go y.loop lt
  where
    go : (l : Loop) → Less u 0 l → is_awaiting l ≡ false
    go returned h = refl
    go (awaiting a) h = absurd (omega arith)
    go (guarding i) h = refl
    go (pausing start) h = refl
drive_ends u (w ∷ ws) y v lt =
    go y.loop v.place lt (drive_ends u ws (on_wake u w y) (wake-IsValid u w y v))
  where
    go :
        (l : Loop)
        → At u y.server l
        → Less u (length (w ∷ ws)) l
        → (Less u (length ws) (on_wake u w (record y { loop = l })).loop
            → is_awaiting (drive u ws (on_wake u w (record y { loop = l }))).loop ≡ false)
        → is_awaiting
            (if is_awaiting l
              then drive u ws (on_wake u w (record y { loop = l }))
              else record y { loop = l }).loop
          ≡ false
    go returned h lt' ih = refl
    go (guarding i) h lt' ih = refl
    go (pausing start) h lt' ih = refl
    go (awaiting a) h lt' ih =
        ih (Less-le u (left u a) (length ws) _ (omega arith) (wake-Less u w a y h.0))

scale : (k j m : ℕ) → k ≤ j → k * (2 * m) ≤ j * (2 * m)
scale k j m h = grind arith

left-lt :
    (u : Setup) (a : Attempt)
    → InBounds u a
    → left u a < length u.remotes * (2 * max_attempts u.cfg)
unfolding left
left-lt u a b =
    let n : ℕ = length u.remotes in
    let m : ℕ = max_attempts u.cfg in
    let whole : (n - 1 + 1) * (2 * m) ≡ n * (2 * m) =
      ap (λ (k : ℕ). k * (2 * m)) (omega (arith, b.candidate)) in
    let top = step_down (n - 1) m (max_attempts_pos u) in
    let below = scale (n - a.offset - 1) (n - 1) m (omega arith) in
    ground (arith, whole, top, below, b.counted, b.limited)

-- In every run, whatever timers pass and results come, after as many of them as two terminations
-- of each candidate have attempts the loop waits for no reply: it guards an MGC, rests or has
-- returned.
pub registration_ends :
    (u : Setup) (y : System) (ws : List Wake)
    → Reach u y
    → length u.remotes * (2 * max_attempts u.cfg) ≤ length ws
    → is_awaiting (drive u ws y).loop ≡ false
registration_ends u y ws r le =
    let v = reach-IsValid u y r in drive_ends u ws y v (start y.loop v.place)
  where
    start : (l : Loop) → At u y.server l → Less u (length ws) l
    start returned h = tt
    start (awaiting a) h = omega (arith, left-lt u a h.0, le)
    start (guarding i) h = tt
    start (pausing s) h = tt
