-- ===== src/PowerDevice/Sent.antt =====
-- power_devices/Source.cpp: to whom a source sends.
use developer_resources.Prelude.{
  ◌≡◌, refl, sym, ap, subst, ◌∙◌, Bool, true, false, List, [], ◌∷◌, if◌then◌else◌, Identity, ok,
  Bool-cases, inl, inr, arith, In, ◌≢◌,
}
use developer_resources.PowerDevice.{
  PowerDevice, ConnectedDevice, ElectricCurrent, on_power_connections, on_requests,
}
use developer_resources.PowerDevice.Sources.{
  Source, Place, wait_for_connections, outer_test, wait_for_operational, inner_test, level_test,
  sending, finished, is_none, is_connected, is_operational, send_current, thread_step, Input,
  thread, connections, requests, selects, signal, step, steps, started,
}
use developer_resources.PowerDevice.Feeding.{
  IsSource, on_power_connections-IsSource, on_requests-IsSource,
}

module _ {A : Type 0} (amps : A) where
  -- A current goes from the source to the first of these devices.
  abbrev pub GoesTo : Identity → List ConnectedDevice → ElectricCurrent A → Type 0
  GoesTo id [] ec = ⊥
  GoesTo id (d ∷ ds) ec = ec ≡ record { power_path = id ∷ d.id ∷ []; amperage = amps }

  -- As long as the thread waits for a connection nothing is sent; then it has a copy of the connected
  -- devices that is not empty, and everything sent goes to the first of them.
  pub record Inv (id : Identity) (s : Source A) : Type 0 where
    pub is_source : IsSource id s.device
    pub idle : s.place ≡ wait_for_connections → s.sent ≡ []
    pub copied : s.place ≢ wait_for_connections → is_none s.connected_devs ≡ false
    pub addressed : (ec : ElectricCurrent A) → In ec s.sent → GoesTo id s.connected_devs ec

  pub started-Inv : (id : Identity) (pd : PowerDevice) → IsSource id pd → Inv id (started pd)
  started-Inv id pd v = record {
    is_source = v;
    idle = λ e. refl;
    copied = λ waits. absurd (waits refl);
    addressed = λ ec there. absurd there;
  }

  moved-Inv :
      (id : Identity) (s : Source A) (p : Place)
      → Inv id s
      → s.place ≢ wait_for_connections
      → p ≢ wait_for_connections
      → Inv id (record s { place = p })
  moved-Inv id s p v before after = record {
    is_source = v.is_source;
    idle = λ e. absurd (after e);
    copied = λ _. v.copied before;
    addressed = v.addressed;
  }

  either_other :
      (b : Bool) (p q : Place)
      → p ≢ wait_for_connections
      → q ≢ wait_for_connections
      → (if b then p else q) ≢ wait_for_connections
  either_other true p q h k = h
  either_other false p q h k = k

  send_current-Inv :
      (id : Identity) (s : Source A) (ds : List ConnectedDevice)
      → s.connected_devs ≡ ds
      → Inv id s
      → is_none ds ≡ false
      → (s' : Source A) × (send_current amps s ≡ ok s') × Inv id s'
  unfolding send_current
  send_current-Inv id s [] e v some_device = cc some_device
  send_current-Inv id s (d ∷ ds) e v some_device =
      let ec : ElectricCurrent A = record {
        power_path = s.device.device_id ∷ d.id ∷ [];
        amperage = amps;
      } in
      (
        record s { place = inner_test; sent = ec ∷ s.sent },
        simp (e, send_current) refl,
        record {
          is_source = v.is_source;
          idle = λ w. cc w;
          copied = λ _. ap is_none e ∙ some_device;
          addressed = λ c. elim [
            | inl now ↦
                subst (λ ds'. GoesTo id ds' c) (sym e)
                  (sym now
                    ∙ ap (λ i. record { power_path = i ∷ d.id ∷ []; amperage = amps })
                        v.is_source.2)
            | inr there ↦ v.addressed c there
          ];
        },
      )

  copied_now :
      (pd : PowerDevice)
      → pd.connected_devices_in ≡ []
      → is_connected pd ≡ true
      → is_none pd.connected_devices_out ≡ false
  copied_now pd none_in on = ground (arith, none_in, on)

  -- From any place the thread goes on without a fault.
  pub thread_step-Inv :
      (id : Identity) (p : Place) (s : Source A)
      → s.place ≡ p
      → Inv id s
      → (s' : Source A) × (thread_step amps p s ≡ ok s') × Inv id s'
  unfolding thread_step
  thread_step-Inv id wait_for_connections s e v = elim (Bool-cases (is_connected s.device)) [
    | inr waits ↦ (s, simp (waits, thread_step) refl, v)
    | inl on ↦ (
      record s { place = outer_test; connected_devs = s.device.connected_devices_out },
      simp (on, thread_step) refl,
      record {
        is_source = v.is_source;
        idle = λ w. cc w;
        copied = λ _. copied_now s.device v.is_source.1 on;
        addressed = λ ec there. absurd (subst (In ec) (v.idle e) there);
      },
    )
  ]
  thread_step-Inv id outer_test s e v = (
    record s { place = if s.shutdown then finished else wait_for_operational },
    refl,
    moved-Inv id s _ v (λ w. cc (e, w))
        (either_other s.shutdown finished wait_for_operational (λ w. cc w) (λ w. cc w)),
  )
  thread_step-Inv id wait_for_operational s e v = elim (Bool-cases (is_operational s.device)) [
    | inr waits ↦ (s, simp (waits, thread_step) refl, v)
    | inl on ↦ (
      record s { place = inner_test },
      simp (on, thread_step) refl,
      moved-Inv id s inner_test v (λ w. cc (e, w)) (λ w. cc w),
    )
  ]
  thread_step-Inv id inner_test s e v = (
    record s { place = if s.shutdown then outer_test else level_test },
    refl,
    moved-Inv id s _ v (λ w. cc (e, w))
        (either_other s.shutdown outer_test level_test (λ w. cc w) (λ w. cc w)),
  )
  thread_step-Inv id level_test s e v = (
    record s { place = if is_operational s.device then sending else outer_test },
    refl,
    moved-Inv id s _ v (λ w. cc (e, w))
        (either_other (is_operational s.device) sending outer_test (λ w. cc w) (λ w. cc w)),
  )
  thread_step-Inv id sending s e v =
      send_current-Inv id s s.connected_devs refl v (v.copied (λ w. cc (e, w)))
  thread_step-Inv id finished s e v = (s, refl, v)

  with_device-Inv :
      (id : Identity) (s : Source A) (pd : PowerDevice)
      → IsSource id pd
      → Inv id s
      → Inv id (record s { device = pd })
  with_device-Inv id s pd is_source v = record {
    is_source = is_source;
    idle = v.idle;
    copied = v.copied;
    addressed = v.addressed;
  }

  pub step-Inv :
      (id : Identity) (i : Input) (s : Source A)
      → Inv id s
      → (s' : Source A) × (step amps i s ≡ ok s') × Inv id s'
  unfolding step
  step-Inv id thread s v = thread_step-Inv id s.place s refl v
  step-Inv id (connections rc samples) s v = (
    record s { device = on_power_connections rc samples s.device },
    refl,
    with_device-Inv id s _ (on_power_connections-IsSource id rc samples s.device v.is_source) v,
  )
  step-Inv id (requests rc samples) s v = (
    record s { device = on_requests rc samples s.device },
    refl,
    with_device-Inv id s _ (on_requests-IsSource id rc samples s.device v.is_source) v,
  )
  step-Inv id (selects other) s v = (
    record s { device = record s.device { selected = other } },
    refl,
    with_device-Inv id s _ v.is_source v,
  )
  step-Inv id signal s v = (
    record s { shutdown = true },
    refl,
    record { is_source = v.is_source; idle = v.idle; copied = v.copied; addressed = v.addressed },
  )

  -- A thread that no longer waits for connections keeps its copy of the connected devices.
  thread_step_keeps :
      (p : Place) (s s' : Source A)
      → s.place ≡ p
      → p ≢ wait_for_connections
      → thread_step amps p s ≡ ok s'
      → (s'.place ≢ wait_for_connections) × (s'.connected_devs ≡ s.connected_devs)
  unfolding thread_step send_current
  thread_step_keeps wait_for_connections s s' e beyond run = absurd (beyond refl)
  thread_step_keeps outer_test s s' e beyond run = ground (arith, run)
  thread_step_keeps wait_for_operational s s' e beyond run = ground (arith, run, e)
  thread_step_keeps inner_test s s' e beyond run = ground (arith, run)
  thread_step_keeps level_test s s' e beyond run = ground (arith, run)
  thread_step_keeps sending s s' e beyond run = ground (arith, run)
  thread_step_keeps finished s s' e beyond run = ground (arith, run, e)

  step_keeps :
      (i : Input) (s s' : Source A)
      → s.place ≢ wait_for_connections
      → step amps i s ≡ ok s'
      → (s'.place ≢ wait_for_connections) × (s'.connected_devs ≡ s.connected_devs)
  unfolding step
  step_keeps thread s s' beyond run = thread_step_keeps s.place s s' refl beyond run
  step_keeps (connections rc samples) s s' beyond run = ground (arith, run, beyond)
  step_keeps (requests rc samples) s s' beyond run = ground (arith, run, beyond)
  step_keeps (selects id) s s' beyond run = ground (arith, run, beyond)
  step_keeps signal s s' beyond run = ground (arith, run, beyond)

  -- Whatever happens to a source in whatever order, its thread never looks for the first device of an
  -- empty sequence. All currents it has handed over go from it, with the simulated amperage, to the
  -- first device of the copy that its thread has; and this copy, once the wait for connections is
  -- over, stays the same, whatever is connected later.
  pub steps-Inv :
      (id : Identity) (is : List Input) (s : Source A)
      → Inv id s
      → (s' : Source A) × (steps amps is s ≡ ok s')
        × Inv id s'
        × (s.place ≢ wait_for_connections → s'.connected_devs ≡ s.connected_devs)
  unfolding steps
  steps-Inv id [] s v = (s, refl, v, λ beyond. refl)
  steps-Inv id (i ∷ is) s v =
      let (s', run, v') = step-Inv id i s v in
      let (s'', runs, v'', kept) = steps-Inv id is s' v' in
      (
        s'',
        rw (run, steps) runs,
        v'',
        λ beyond. let (beyond', same) = step_keeps i s s' beyond run in kept beyond' ∙ same,
      )
