-- ===== src/Client/Display.antt =====
-- cli/CLIClient.cpp: what is shown of the controllers and of the power devices, line by line, without the
-- padding between the columns.
use developer_resources.Prelude.{
  ℕ, zero, suc, ◌+◌, ◌≡◌, refl, ap, sym, ◌∙◌, Bool, Option, none, some, List, [], ◌∷◌, ◌++◌,
  Identity, codes, length, map, find, subst, ap₂, arith,
}
use developer_resources.Controller.{PowerDeviceInfo, PowerDevices}
use developer_resources.Utilities.{
  device_role_to_string, energy_level_to_string, names_round_trip, roles, levels,
}
use developer_resources.Client.{ControllerMap, is_available}
use developer_resources.Client.Gathering.{DevicesOf, Answers, collect_power_devices, keys}

pub record ControllerLine : Type 0 where
  pub number : ℕ
  pub id : Identity
  pub available : Bool

pub record DeviceLine : Type 0 where
  pub number : ℕ
  pub id : Identity
  pub role : Identity
  pub energy_level : Identity
  pub active_controller : Identity

-- The loop of `display_controllers`, from the number `i` on.
unfoldable pub controller_lines : ℕ → ℕ → ControllerMap → List ControllerLine
controller_lines now i [] = []
controller_lines now i ((id, c) ∷ rest) =
    (record { number = i; id = id; available = is_available now c.last_hb })
    ∷ controller_lines now (suc i) rest

-- The number that is shown first, and the lines.
unfoldable pub display_controllers : ℕ → ControllerMap → ℕ × List ControllerLine
unfolding controller_lines
display_controllers now m = (length m, controller_lines now 1 m)

abbrev pub value_or : Option Identity → Identity → Identity
value_or none other = other
value_or (some id) other = id

abbrev pub device_line : ℕ → Identity → PowerDeviceInfo → DeviceLine
device_line i id pd = record {
  number = i;
  id = id;
  role = device_role_to_string pd.device_info.role;
  energy_level = energy_level_to_string pd.essl;
  active_controller = value_or pd.master_id (codes "Undetermined");
}

-- The inner loop of `display_power_devices`.
unfoldable pub device_lines : ℕ → PowerDevices → List DeviceLine
device_lines i [] = []
device_lines i ((id, pd) ∷ rest) = device_line i id pd ∷ device_lines (suc i) rest

-- The lines under the heading of each controller; the numbers go on from one to the next.
unfoldable pub lines_from : ℕ → DevicesOf → List (Identity × List DeviceLine)
unfolding device_lines
lines_from i [] = []
lines_from i ((mc_id, pds) ∷ rest) = (mc_id, device_lines i pds) ∷ lines_from (i + length pds) rest

unfoldable pub display_power_devices : DevicesOf → List (Identity × List DeviceLine)
unfolding lines_from
display_power_devices m = lines_from 1 m

-- `list_power_devices`: the map that is left, and what is shown.
unfoldable pub list_power_devices :
    ℕ
    → (Identity → Answers)
    → ControllerMap
    → DevicesOf
    → DevicesOf × List (Identity × List DeviceLine)
unfolding collect_power_devices display_power_devices
list_power_devices now answers controllers m =
    let m' = (collect_power_devices now answers controllers m).1 in (m', display_power_devices m')

abbrev pub count_from : ℕ → ℕ → List ℕ
count_from i zero = []
count_from i (suc n) = i ∷ count_from (suc i) n

abbrev pub all_lines : List (Identity × List DeviceLine) → List DeviceLine
all_lines [] = []
all_lines ((mc_id, ls) ∷ rest) = ls ++ all_lines rest

abbrev pub all_devices : DevicesOf → PowerDevices
all_devices [] = []
all_devices ((mc_id, pds) ∷ rest) = pds ++ all_devices rest

device_lines-append :
    (i : ℕ) (xs ys : PowerDevices)
    → device_lines i (xs ++ ys) ≡ device_lines i xs ++ device_lines (i + length xs) ys
unfolding device_lines
device_lines-append i [] ys = ap (λ j. device_lines j ys) (omega arith)
device_lines-append i ((id, pd) ∷ xs) ys =
    ap (λ ls. device_line i id pd ∷ ls)
      (device_lines-append (suc i) xs ys
        ∙ ap (λ j. device_lines (suc i) xs ++ device_lines j ys) (omega arith))

all_lines-lines_from :
    (i : ℕ) (m : DevicesOf) → all_lines (lines_from i m) ≡ device_lines i (all_devices m)
unfolding lines_from
all_lines-lines_from i [] = refl
all_lines-lines_from i ((mc_id, pds) ∷ rest) =
    ap (λ ls. device_lines i pds ++ ls) (all_lines-lines_from (i + length pds) rest)
    ∙ sym (device_lines-append i pds (all_devices rest))

-- What can be read off the lines: their numbers and identities, and the roles and levels of the names.
pub record Tell (i : ℕ) (pds : PowerDevices) (ls : List DeviceLine) : Type 0 where
  numbers : map (λ l. l.number) ls ≡ count_from i (length pds)
  ids : map (λ l. l.id) ls ≡ keys pds
  device_roles : map (λ l. find l.role roles) ls ≡ map (λ d. some (d.1).device_info.role) pds
  energy_levels : map (λ l. find l.energy_level levels) ls ≡ map (λ d. some (d.1).essl) pds

device_lines-Tell : (i : ℕ) (pds : PowerDevices) → Tell i pds (device_lines i pds)
unfolding device_lines
device_lines-Tell i [] = record {
  numbers = refl;
  ids = refl;
  device_roles = refl;
  energy_levels = refl;
}
device_lines-Tell i ((id, pd) ∷ rest) =
    let v = device_lines-Tell (suc i) rest in
    let (role_read, _, level_read) = names_round_trip in
    record {
      numbers = ap (λ ns. i ∷ ns) v.numbers;
      ids = ap (λ ns. id ∷ ns) v.ids;
      device_roles = ap₂ (λ r rs. r ∷ rs) (role_read pd.device_info.role) v.device_roles;
      energy_levels = ap₂ (λ l ls. l ∷ ls) (level_read pd.essl) v.energy_levels;
    }

-- What list_power_devices shows tells of all the devices of all the controllers, in their order, the
-- identity, the role and the energy level, under numbers that count on from 1 over the controllers.
pub list_power_devices-Tell :
    (now : ℕ) (answers : Identity → Answers) (controllers : ControllerMap) (m : DevicesOf)
    → let (m', shown) = list_power_devices now answers controllers m in
      Tell 1 (all_devices m') (all_lines shown)
unfolding list_power_devices display_power_devices
list_power_devices-Tell now answers controllers m =
    let m' = (collect_power_devices now answers controllers m).1 in
    subst (Tell 1 (all_devices m')) (sym (all_lines-lines_from 1 m'))
      (device_lines-Tell 1 (all_devices m'))
