-- ===== src/PowerDevice/Loads.antt =====
-- power_devices/Load.cpp: the current that a load takes, and its way from a source over a distribution
-- device.
use developer_resources.Prelude.{
  ℕ, ◌≡◌, refl, sym, ap, subst, ◌∙◌, Bool, true, false, ◌&&◌, Option, none, some, List, [], ◌∷◌,
  ◌++◌, map, if◌then◌else◌, Identity, id_eq, id_eq_refl, length, In, inl, inr, ok,
}
use developer_resources.Data.{ReturnCode, retcode_ok, is_ok, essl_operational, level_eq}
use developer_resources.PowerDevice.{
  PowerDevice, ConnectedDevice, ElectricCurrent, last_two, relay_all, on_electric_currents,
}
use developer_resources.PowerDevice.Relay.{relay_one_sent}
use developer_resources.PowerDevice.Sources.{inner_test, Source, send_current}

-- `connected_dev_id`: of the first device that current is taken from, or empty.
abbrev pub connected_dev_id : List ConnectedDevice → Identity
connected_dev_id [] = []
connected_dev_id (d ∷ ds) = d.id

module _ {A : Type 0} where
  -- A valid sample whose path ends in the connected device and the load.
  unfoldable pub is_for_load : PowerDevice → Bool → ElectricCurrent A → Bool
  unfolding last_two
  is_for_load load valid ec = elim (last_two ec.power_path) [
    | none ↦ false
    | some (from, to) ↦
        valid
        && (id_eq from (connected_dev_id load.connected_devices_in) && id_eq to load.device_id)
  ]

  -- The loop ends at the first such sample.
  unfoldable pub first_current :
      PowerDevice → List (Bool × ElectricCurrent A) → Option (ElectricCurrent A)
  unfolding is_for_load
  first_current load [] = none
  first_current load ((valid, ec) ∷ rest) =
      let later = first_current load rest in if is_for_load load valid ec then some ec else later

  -- The `on_data_available` of Load.cpp: the current that the load receives, if it receives one.
  unfoldable pub on_load_currents :
      ReturnCode → List (Bool × ElectricCurrent A) → PowerDevice → Option (ElectricCurrent A)
  unfolding first_current
  on_load_currents rc samples load =
      if is_ok rc && level_eq load.essl essl_operational then first_current load samples else none

In-map :
    {B : Type 0} (f : ConnectedDevice → B) (d : ConnectedDevice) (ds : List ConnectedDevice)
    → In d ds
    → In (f d) (map f ds)
In-map f d [] there = absurd there
In-map f d (x ∷ ds) (inl e) = inl (ap f e)
In-map f d (x ∷ ds) (inr there) = inr (In-map f d ds there)

In-front : {B : Type 0} (b : B) (xs ys : List B) → In b xs → In b (xs ++ ys)
In-front b [] ys there = absurd there
In-front b (x ∷ xs) ys (inl e) = inl e
In-front b (x ∷ xs) ys (inr there) = inr (In-front b xs ys there)

module _ {A : Type 0} (divide : A → ℕ → A) where
  -- What a distribution device passes on to the device at a port.
  abbrev passed : PowerDevice → Identity → A → ConnectedDevice → ElectricCurrent A
  passed dist from amperage port = record {
    power_path = from ∷ dist.device_id ∷ port.id ∷ [];
    amperage = divide amperage (length dist.connected_devices_out);
  }

  In-passed :
      (dist : PowerDevice) (from port : ConnectedDevice) (amperage : A)
      → In from dist.connected_devices_in
      → In port dist.connected_devices_out
      → level_eq dist.essl essl_operational ≡ true
      → In (passed dist from.id amperage port) (
          on_electric_currents divide retcode_ok
            ((true, record { power_path = from.id ∷ dist.device_id ∷ []; amperage = amperage })
              ∷ [])
            dist)
  unfolding on_electric_currents relay_all
  In-passed dist from port amperage takes sends on =
      rw (on, on_electric_currents)
        (In-front _ _ [] (
          subst (In (passed dist from.id amperage port))
            (sym (relay_one_sent divide dist [] from amperage takes))
            (In-map (passed dist from.id amperage) port dist.connected_devices_out sends)))

is_for_load_own :
    {A : Type 0} (load : PowerDevice) (ec : ElectricCurrent A) (src from to : Identity)
    → ec.power_path ≡ src ∷ from ∷ to ∷ []
    → connected_dev_id load.connected_devices_in ≡ from
    → to ≡ load.device_id
    → is_for_load load true ec ≡ true
unfolding is_for_load last_two
is_for_load_own load ec src from to path linked own =
    rw (path, is_for_load) (rw (linked, id_eq_refl from) (rw (own, id_eq_refl load.device_id) refl))

taken_by_load :
    {A : Type 0} (load : PowerDevice) (ec : ElectricCurrent A)
    → is_for_load load true ec ≡ true
    → level_eq load.essl essl_operational ≡ true
    → on_load_currents retcode_ok ((true, ec) ∷ []) load ≡ some ec
unfolding on_load_currents first_current
taken_by_load load ec ours on = rw (on, on_load_currents) (rw (ours, first_current) refl)

-- A source whose thread sends to a distribution device that has the source among the devices it takes
-- current from and a load among those it sends current to: if both these devices are operational and
-- the distribution device is the first that the load takes current from, then one of the currents
-- that the distribution device passes on is received by the load, and it has gone from the source over
-- the distribution device to the load, with the source's amperage divided by the number of devices
-- that the distribution device sends to.
pub current_reaches_load :
    {A : Type 0} (amps : A) (divide : A → ℕ → A) (src : Source A) (dist load : PowerDevice)
    (to from : ConnectedDevice) (others : List ConnectedDevice) (port : ConnectedDevice)
    → src.connected_devs ≡ to ∷ others
    → to.id ≡ dist.device_id
    → In from dist.connected_devices_in
    → from.id ≡ src.device.device_id
    → In port dist.connected_devices_out
    → port.id ≡ load.device_id
    → connected_dev_id load.connected_devices_in ≡ dist.device_id
    → level_eq dist.essl essl_operational ≡ true
    → level_eq load.essl essl_operational ≡ true
    → (src' : Source A) × (sent : ElectricCurrent A) × (taken : ElectricCurrent A) × (send_current
          amps src
        ≡ ok src')
      × (src'.sent ≡ sent ∷ src.sent)
      × In taken (on_electric_currents divide retcode_ok ((true, sent) ∷ []) dist)
      × (on_load_currents retcode_ok ((true, taken) ∷ []) load ≡ some taken)
      × (taken.power_path ≡ src.device.device_id ∷ dist.device_id ∷ load.device_id ∷ [])
      × (taken.amperage ≡ divide amps (length dist.connected_devices_out))
unfolding send_current
current_reaches_load amps divide src dist load to from others port copy here takes is_src sends
      is_load linked on on' =
    let sent : ElectricCurrent _ = record {
      power_path = from.id ∷ dist.device_id ∷ [];
      amperage = amps;
    } in
    (
      record src { place = inner_test; sent = sent ∷ src.sent },
      sent,
      passed divide dist from.id amps port,
      simp (copy, here, ← is_src, send_current) refl,
      refl,
      In-passed divide dist from port amps takes sends on,
      taken_by_load load (passed divide dist from.id amps port)
          (is_for_load_own load (passed divide dist from.id amps port) from.id dist.device_id
            port.id refl linked is_load)
          on',
      ap (λ i. i ∷ dist.device_id ∷ port.id ∷ []) is_src
          ∙ ap (λ i. src.device.device_id ∷ dist.device_id ∷ i ∷ []) is_load,
      refl,
    )
