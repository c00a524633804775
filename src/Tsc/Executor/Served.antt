-- ===== src/Tsc/Executor/Served.antt =====
-- tsc_service.cpp, set_tsc_hold_and_omit_forceoff_call: that a queue which is left alone is served.
use mathlib.Core.List.{append_assoc, append-nil}
use carma_streets.Base.{
  ℕ, ◌≡◌, refl, sym, ◌∙◌, ◌≤◌, ◌==◌, ltb, List, [], ◌∷◌, ◌++◌, map, Bool, true, false,
  if◌then◌else◌, none, done, Bool-cases, inl, inr, arith,
}
use carma_streets.SnmpCmd.Commands.{SnmpCmd, create_clear_all_snmp_commands}
use carma_streets.Tsc.Executor.{
  Control, Reading, SetRequest, request_of, same_info, run_snmp_cmd_set_request, run_simultaneous,
  after_sleep, serve, set_tsc_hold_and_omit_forceoff_call,
}

-- What is behind the commands of one time.
abbrev pub behind : ℕ → List SnmpCmd → List SnmpCmd
behind time [] = []
behind time (c ∷ cs) = if c.start_time == time then behind time cs else c ∷ cs

-- The readings suffice for the queue: nothing replaces it, and each command that a round starts with
-- is not late.
abbrev pub Punctual : List Reading → List SnmpCmd → Type 0
Punctual rs [] = Unit
Punctual [] (c ∷ cs) = ⊥
Punctual (r ∷ rs) (c ∷ cs) =
    (r.replaced ≡ none) × (r.now ≤ c.start_time) × Punctual rs (behind c.start_time cs)

same_info_refl : (c : SnmpCmd) → same_info c c ≡ true
unfolding same_info
same_info_refl c = ground arith

module _ (accepts : SetRequest → Bool) (all_accepted : (q : SetRequest) → accepts q ≡ true) where
  -- The commands of one time are sent in order, and those behind them are left.
  run_simultaneous-behind :
      (time : ℕ) (cs : List SnmpCmd) (sent : List SetRequest)
      → (out : Control) × (run_simultaneous accepts time cs sent ≡ done out)
        × (out.queue ≡ behind time cs)
        × (out.sent ++ map request_of out.queue ≡ sent ++ map request_of cs)
  unfolding run_simultaneous run_snmp_cmd_set_request
  run_simultaneous-behind time [] sent = (record { queue = []; sent = sent }, refl, refl, refl)
  run_simultaneous-behind time (c ∷ cs) sent = elim (Bool-cases (c.start_time == time)) [
    | inr later ↦ (
      record { queue = c ∷ cs; sent = sent },
      rw (later, run_simultaneous) refl,
      rw later refl,
      refl,
    )
    | inl due ↦
        let rest = run_simultaneous-behind time cs (sent ++ request_of c ∷ []) in
        (
          rest.0,
          rw (due, all_accepted (request_of c), run_simultaneous) rest.1,
          rw due rest.2,
          rest.3 ∙ append_assoc sent (request_of c ∷ []) (map request_of cs),
        )
  ]

  serve-Punctual :
      (rs : List Reading) (queue : List SnmpCmd) (sent : List SetRequest)
      → Punctual rs queue
      → serve accepts rs (record { queue = queue; sent = sent })
        ≡ done (record { queue = []; sent = sent ++ map request_of queue })
  unfolding serve after_sleep
  serve-Punctual [] [] sent h = rw (append-nil sent) refl
  serve-Punctual (r ∷ rs) [] sent h = rw (append-nil sent) refl
  serve-Punctual [] (c ∷ cs) sent h = absurd h
  serve-Punctual (r ∷ rs) (c ∷ cs) sent h =
      let in_time : r.now ≤ c.start_time = h.1 in
      let not_late : ltb c.start_time r.now ≡ false = ground arith in
      let batch = run_simultaneous-behind c.start_time (c ∷ cs) sent in
      let same_time : (c.start_time == c.start_time) ≡ true = ground arith in
      let left : batch.0.queue ≡ behind c.start_time cs = rw same_time at batch.2 in
      let later = serve-Punctual rs batch.0.queue batch.0.sent (rw left h.2) in
      rw (not_late, h.0, same_info_refl c, batch.1, serve) (rw (sym batch.3) later)

  -- Where the controller accepts every request, nothing replaces the queue, and no round starts with a
  -- command that is late: the service returns, the queue is empty, and every command of it was sent
  -- once, in the order of the queue, behind the clearing commands.
  pub set_tsc_hold_and_omit_forceoff_call_serves :
      (rs : List Reading) (c : SnmpCmd) (cs : List SnmpCmd) (sent : List SetRequest)
      → Punctual rs (c ∷ cs)
      → set_tsc_hold_and_omit_forceoff_call accepts rs (record { queue = c ∷ cs; sent = sent })
        ≡ done (record {
          queue = [];
          sent =
              (sent ++ map request_of (create_clear_all_snmp_commands 0))
              ++ map request_of (c ∷ cs);
        })
  unfolding set_tsc_hold_and_omit_forceoff_call
  set_tsc_hold_and_omit_forceoff_call_serves rs c cs sent h =
      serve-Punctual rs (c ∷ cs) (sent ++ map request_of (create_clear_all_snmp_commands 0)) h
