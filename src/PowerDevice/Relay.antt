-- ===== src/PowerDevice/Relay.antt =====
-- power_devices/Distribution.cpp: the currents that are passed on.
use developer_resources.Prelude.{
  false, ℕ, ◌≡◌, ◌≢◌, refl, Bool, true, ◌&&◌, some, List, [], ◌∷◌, ◌++◌, map, if◌then◌else◌,
  Identity, id_eq, id_eq_iff, id_eq_refl, length, In, Bool-cases, Option-cases, arith, inl, inr,
  sym, ap, ◌∙◌,
}
use mathlib.Core.List.{append_assoc}
use developer_resources.Data.{essl_operational, level_eq, ReturnCode, is_ok}
use developer_resources.PowerDevice.{
  PowerDevice, ConnectedDevice, ElectricCurrent, last_two, found_in, relay_to, relay_one, relay_all,
  on_electric_currents,
}

-- The search finds the sender exactly if it is one of the devices that current is taken from.
pub found_in_iff :
    (from : Identity) (ds : List ConnectedDevice)
    → (found_in from ds ≡ true → (d : ConnectedDevice) × In d ds × (d.id ≡ from))
      × ((d : ConnectedDevice) → In d ds → d.id ≡ from → found_in from ds ≡ true)
unfolding found_in
found_in_iff from [] = (λ h. ground (arith, h), λ d there same. absurd there)
found_in_iff from (x ∷ ds) = (
  λ h. elim (Bool-cases (id_eq x.id from)) [
    | inl same ↦ (x, inl refl, ground (arith, id_eq_iff x.id from))
    | inr other ↦
        let (d, there, same) = (found_in_iff from ds).0 (ground (arith, h)) in (d, inr there, same)
  ],
  λ d there same. ground (arith, id_eq_refl from, (found_in_iff from ds).1 d),
)

last_two-append :
    (path : List Identity) (from to : Identity)
    → last_two (path ++ from ∷ to ∷ []) ≡ some (from, to)
unfolding last_two
last_two-append [] from to = refl
last_two-append (x ∷ []) from to = refl
last_two-append (x ∷ y ∷ []) from to = last_two-append (y ∷ []) from to
last_two-append (x ∷ y ∷ z ∷ rest) from to = last_two-append (y ∷ z ∷ rest) from to

module _ {A : Type 0} (divide : A → ℕ → A) where
  relay_to-map :
      (ec : ElectricCurrent A) (ports : ℕ) (ds : List ConnectedDevice)
      → relay_to divide ec ports ds
        ≡ map
            (λ d. record {
              power_path = ec.power_path ++ d.id ∷ [];
              amperage = divide ec.amperage ports;
            })
            ds
  unfolding relay_to
  relay_to-map ec ports [] = refl
  relay_to-map ec ports (d ∷ ds) = ground (arith, relay_to-map ec ports ds)

  -- A current that a connected device sent to this one goes out to every device at the ports that
  -- current is sent to, in order: its path with that device at the end, its amperage divided by
  -- the number of the ports.
  pub relay_one_sent :
      (pd : PowerDevice) (path : List Identity) (from : ConnectedDevice) (amperage : A)
      → In from pd.connected_devices_in
      → relay_one divide pd
          (record { power_path = path ++ from.id ∷ pd.device_id ∷ []; amperage = amperage })
        ≡ map
            (λ d. record {
              power_path = (path ++ from.id ∷ pd.device_id ∷ []) ++ d.id ∷ [];
              amperage = divide amperage (length pd.connected_devices_out);
            })
            pd.connected_devices_out
  unfolding relay_one
  relay_one_sent pd path from amperage there =
      rw (last_two-append path from.id pd.device_id, relay_one)
        (rw (id_eq_refl pd.device_id) (
          rw ((found_in_iff from.id pd.connected_devices_in).1 from there refl)
            (relay_to-map _ _ pd.connected_devices_out)))

  -- A path of fewer than two devices, one that does not end at this device, or one whose sender is
  -- at no port that current is taken from: nothing goes out.
  pub relay_one_dropped :
      (pd : PowerDevice) (ec : ElectricCurrent A)
      → ((from : Identity)
          → (d : ConnectedDevice) → last_two ec.power_path ≡ some (from, pd.device_id)
          → In d pd.connected_devices_in
          → d.id ≢ from)
      → relay_one divide pd ec ≡ []
  unfolding relay_one
  relay_one_dropped pd ec strange = elim (Option-cases (last_two ec.power_path)) [
    | inl short ↦ rw (short, relay_one) refl
    | inr ((from, to), path) ↦ elim (Bool-cases (id_eq to pd.device_id)) [
      | inr other ↦ rw (path, relay_one) (rw other refl)
      | inl ours ↦ elim (Bool-cases (found_in from pd.connected_devices_in)) [
        | inr absent ↦ rw (path, relay_one) (rw ours (rw absent refl))
        | inl found ↦
            let (d, there, same) = (found_in_iff from pd.connected_devices_in).0 found in
            let end : last_two ec.power_path ≡ some (from, pd.device_id) =
              path ∙ ap (λ i. some (from, i)) ((id_eq_iff to pd.device_id).0 ours) in
            absurd (strange from d end there same)
      ]
    ]
  ]

  relay_all-append :
      (before after : List (Bool × ElectricCurrent A)) (pd : PowerDevice)
      → relay_all divide pd (before ++ after)
        ≡ relay_all divide pd before ++ relay_all divide pd after
  unfolding relay_all
  relay_all-append [] after pd = refl
  relay_all-append ((valid, ec) ∷ rest) after pd = rw (relay_all-append rest after pd) (
      sym (
        append_assoc (if valid then relay_one divide pd ec else []) (relay_all divide pd rest)
          (relay_all divide pd after)))

  -- If `take` fails or the distribution device is not operational, it passes nothing on. In any
  -- case what it passes on of two runs of samples is what it passes on of the first and then of the
  -- second.
  pub on_electric_currents-append :
      (rc : ReturnCode) (before after : List (Bool × ElectricCurrent A)) (pd : PowerDevice)
      → (is_ok rc && level_eq pd.essl essl_operational ≡ false
          → on_electric_currents divide rc before pd ≡ [])
        × (on_electric_currents divide rc (before ++ after) pd
            ≡ on_electric_currents divide rc before pd ++ on_electric_currents divide rc after pd)
  unfolding on_electric_currents
  on_electric_currents-append rc before after pd = (
    λ off. rw (off, on_electric_currents) refl,
    elim (Bool-cases (is_ok rc && level_eq pd.essl essl_operational)) [
      | inl on ↦ rw (on, on_electric_currents) (relay_all-append before after pd)
      | inr off ↦ rw (off, on_electric_currents) refl
    ],
  )
