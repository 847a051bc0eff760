-- ===== src/PowerDevice/Shutdown.antt =====
-- power_devices/Source.cpp: whether the thread of a source comes to its end. Only `handle_signal` sets
-- `shutdown_`, and no code of the repository registers it or calls it.
use developer_resources.Prelude.{
  ◌≡◌, ◌≢◌, refl, subst, ok_injective, false, List, [], ◌∷◌, Identity, ok, arith, All,
}
use developer_resources.PowerDevice.{PowerDevice}
use developer_resources.PowerDevice.Feeding.{IsSource}
use developer_resources.PowerDevice.Sources.{
  Source, Place, wait_for_connections, outer_test, wait_for_operational, inner_test, level_test,
  sending, finished, thread_step, send_current, Input, thread, connections, requests, selects,
  signal, step, steps, started,
}
use developer_resources.PowerDevice.Sent.{Inv, step-Inv, started-Inv}

abbrev pub IsNoSignal : Input → Type 0
IsNoSignal signal = ⊥
IsNoSignal _ = Unit {0}

-- The thread has not ended, and has not been told to.
pub record GoesOn {A : Type 0} (s : Source A) : Type 0 where
  pub untold : s.shutdown ≡ false
  pub unfinished : s.place ≢ finished

module _ {A : Type 0} (amps : A) where
  thread_step-GoesOn :
      (p : Place) (s s' : Source A)
      → s.place ≡ p
      → GoesOn s
      → thread_step amps p s ≡ ok s'
      → (s'.shutdown ≡ false) × (s'.place ≢ finished)
  unfolding thread_step send_current
  thread_step-GoesOn wait_for_connections s s' e g run = ground (arith, run, e, g.untold)
  thread_step-GoesOn outer_test s s' e g run = ground (arith, run, e, g.untold)
  thread_step-GoesOn wait_for_operational s s' e g run = ground (arith, run, e, g.untold)
  thread_step-GoesOn inner_test s s' e g run = ground (arith, run, e, g.untold)
  thread_step-GoesOn level_test s s' e g run = ground (arith, run, e, g.untold)
  thread_step-GoesOn sending s s' e g run = ground (arith, run, e, g.untold)
  thread_step-GoesOn finished s s' e g run = absurd (g.unfinished e)

  step-GoesOn :
      (i : Input) (s s' : Source A) → IsNoSignal i → GoesOn s → step amps i s ≡ ok s' → GoesOn s'
  unfolding step
  step-GoesOn thread s s' none g run =
      let (untold, unfinished) = thread_step-GoesOn s.place s s' refl g run in
      record { untold = untold; unfinished = unfinished }
  step-GoesOn (connections rc samples) s s' none g run =
      subst GoesOn (ok_injective refl run) (record { untold = g.untold; unfinished = g.unfinished })
  step-GoesOn (requests rc samples) s s' none g run =
      subst GoesOn (ok_injective refl run) (record { untold = g.untold; unfinished = g.unfinished })
  step-GoesOn (selects id) s s' none g run =
      subst GoesOn (ok_injective refl run) (record { untold = g.untold; unfinished = g.unfinished })
  step-GoesOn signal s s' none g run = absurd none

  steps-GoesOn :
      (id : Identity) (is : List Input) (s : Source A)
      → All IsNoSignal is
      → Inv amps id s
      → GoesOn s
      → (s' : Source A) × (steps amps is s ≡ ok s') × GoesOn s'
  unfolding steps
  steps-GoesOn id [] s none v g = (s, refl, g)
  steps-GoesOn id (i ∷ is) s (this, rest) v g =
      let (s', run, v') = step-Inv amps id i s v in
      let (s'', runs, g') = steps-GoesOn id is s' rest v' (step-GoesOn i s s' this g run) in
      (s'', rw (run, steps) runs, g')

  -- From the start of a source, whatever the thread does and whatever reaches the source in between,
  -- but for the signal that nothing delivers, the thread of `simulate_power_flow` makes its steps
  -- without a fault and never comes to its end.
  pub source_goes_on :
      (id : Identity) (is : List Input) (pd : PowerDevice)
      → IsSource id pd
      → All IsNoSignal is
      → (s' : Source A) × (steps amps is (started pd) ≡ ok s') × (s'.place ≢ finished)
  source_goes_on id is pd v none =
      let (s', runs, g) =
        steps-GoesOn id is (started pd) none (started-Inv amps id pd v)
          (record { untold = refl; unfinished = λ e. cc e }) in
      (s', runs, g.unfinished)
