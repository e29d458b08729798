-- ===== src/H248/Server/Silence.antt =====
-- A candidate of `registrationLoop` of internal/h248/server.go that never replies.
use mathlib.Core.List.{append_assoc}
use megaco_sip_gateway.Prelude.{
  ℕ, zero, suc, ◌+◌, Bool, true, false, List, [], ◌∷◌, ◌++◌, map, length, ltb, ◌≡◌, refl, ap, ◌∙◌,
  arith,
}
use megaco_sip_gateway.H248.Server.Registration.{
  Attempt, awaiting, Output, wrote, System, Setup, max_attempts, remote_at, index_of, longer,
  first_attempt,
}
use megaco_sip_gateway.H248.Server.Loop.{
  send_attempt, expect_reply, begin_attempts, register_termination, try_candidate, candidate_failed,
  next_attempt, on_timer, passed, on_wake, is_awaiting,
}
use megaco_sip_gateway.H248.Server.Runs.{drive}

abbrev pub copies {ℓ} : {A : Type ℓ} → ℕ → A → List A
copies zero x = []
copies (suc n) x = x ∷ copies n x

abbrev later : Attempt → Attempt
later a = record a { attempt = a.attempt + 1; delay = longer a.delay }

-- The attempt after those that have timed out
abbrev pub last_attempt : List ℕ → Attempt → Attempt
last_attempt [] a = a
last_attempt (t ∷ ts) a = last_attempt ts (later a)

last_attempt-place :
    (ts : List ℕ) (a : Attempt)
    → ((last_attempt ts a).start_index ≡ a.start_index) × ((last_attempt ts a).offset ≡ a.offset)
last_attempt-place [] a = (refl, refl)
last_attempt-place (t ∷ ts) a = last_attempt-place ts (later a)

module _ (u : Setup) where
  abbrev sent : Attempt → Output
  sent a = wrote a.message (remote_at u (index_of u a))

  abbrev after : List ℕ → Attempt → System → System
  after ts a y = record y {
    loop = awaiting (last_attempt ts a);
    output = y.output ++ copies (suc (length ts)) (sent a);
  }

  next_lem :
      (a : Attempt) (t : ℕ) (y : System)
      → ltb a.attempt (max_attempts u.cfg) ≡ true
      → on_wake u (passed t) (send_attempt u a y) ≡ send_attempt u (later a) (send_attempt u a y)
  unfolding on_wake on_timer next_attempt send_attempt
  next_lem a t y e = rw e refl

  last_lem :
      (a : Attempt) (t : ℕ) (y : System)
      → ltb a.attempt (max_attempts u.cfg) ≡ false
      → on_wake u (passed t) (send_attempt u a y) ≡ candidate_failed u a t (send_attempt u a y)
  unfolding on_wake on_timer next_attempt send_attempt
  last_lem a t y e = rw e refl

  sent-later : (a : Attempt) → sent (later a) ≡ sent a
  unfolding index_of
  sent-later a = refl

  silent :
      (ts : List ℕ) (t : ℕ) (a : Attempt) (y : System)
      → a.attempt + length ts ≡ max_attempts u.cfg
      → drive u (map passed ts ++ passed t ∷ []) (send_attempt u a y)
        ≡ candidate_failed u (last_attempt ts a) t (after ts a y)
  unfolding drive is_awaiting send_attempt
  silent [] t a y e = last_lem a t y (ground (arith, e))
  silent (t' ∷ ts) t a y e =
      ap (drive u (map passed ts ++ passed t ∷ [])) (next_lem a t' y (ground (arith, e)))
      ∙ silent ts t (later a) (send_attempt u a y) (omega arith)
      ∙ ap
          (λ o.
            candidate_failed u (last_attempt ts (later a)) t
              (record y { loop = awaiting (last_attempt ts (later a)); output = o }))
          (append_assoc y.output (sent a ∷ []) (copies (suc (length ts)) (sent (later a)))
            ∙ rw (sent-later a) refl)

  failed_lem :
      (a : Attempt) (t : ℕ) (y : System)
      → y.context_done ≡ false
      → candidate_failed u a t y ≡ try_candidate u a.start_index (a.offset + 1) t y
  unfolding candidate_failed
  failed_lem a t y e = simp e refl

  -- A candidate that does not reply, while the context is not done, gets the ServiceChange of
  -- its registration as often as there are attempts, and when the last one has timed out the
  -- next candidate is tried.
  pub silent_candidate :
      (start offset now t : ℕ) (physical : Bool) (ts : List ℕ) (y : System)
      → y.context_done ≡ false
      → length ts + 1 ≡ max_attempts u.cfg
      → let a = first_attempt u start offset physical now in
        drive u
          (map passed ts ++ passed t ∷ [])
          (register_termination u start offset physical now y)
        ≡ try_candidate u start (offset + 1) t (record y {
          server = expect_reply u a y.server;
          loop = awaiting (last_attempt ts a);
          output =
              y.output ++ copies (suc (length ts)) (wrote a.message (remote_at u (index_of u a)));
        })
  unfolding register_termination begin_attempts
  silent_candidate start offset now t physical ts y running e =
      let a : Attempt = first_attempt u start offset physical now in
      let y' : System = record y { server = expect_reply u a y.server } in
      let place = last_attempt-place ts a in
      silent ts t a y' (unfold first_attempt in omega arith)
      ∙ failed_lem (last_attempt ts a) t (after ts a y') running
      ∙ rw place.0 (rw place.1 (unfold first_attempt in refl))
