-- ===== src/Configuration/Debugging.antt =====
-- common/Configurable.h: which samples of the configuration set the debug flag of a selector or of a
-- controller.
use developer_resources.Prelude.{
  ℕ, ◌≤◌, ◌==◌, ◌≡◌, refl, sym, ap, ◌∙◌, Bool, true, false, ◌&&◌, Option, none, some, List, [], ◌∷◌,
  ◌++◌, if◌then◌else◌, Identity, id_eq, codes, length, take, drop, substr, substr_from, ok, arith,
}
use developer_resources.Selector.{Selector}
use developer_resources.Selector
use developer_resources.Controller.{Controller}
use developer_resources.Controller
use developer_resources.Configuration.{
  ConfigPair, Configurable, convert_bool, set_if, selector_got_config, controller_got_config,
  selector_configurable, controller_configurable, prefix, got_start, got_pair, on_config_available,
}

and_assoc : (a b c : Bool) → a && (b && c) ≡ (a && b) && c
and_assoc a b c = ground arith

-- A key is a prefix and a name if and only if it starts with the prefix and goes on with the name.
id_eq-append :
    (p name key : Identity)
    → id_eq key (p ++ name) ≡ id_eq (take (length p) key) p && id_eq (drop (length p) key) name
unfolding id_eq
id_eq-append [] name key = refl
id_eq-append (x ∷ p) name [] = refl
id_eq-append (x ∷ p) name (y ∷ key) =
    ap (λ b. y == x && b) (id_eq-append p name key)
    ∙ and_assoc (y == x) (id_eq (take (length p) key) p) (id_eq (drop (length p) key) name)

prefix_short : (p key : Identity) → id_eq (take (length p) key) p ≡ true → length p ≤ length key
unfolding id_eq
prefix_short [] key h = omega arith
prefix_short (x ∷ p) [] h = cc h
prefix_short (x ∷ p) (y ∷ key) h = ground (arith, h, prefix_short p key)

start_ok : (s : Identity) (n : ℕ) → substr s 0 n ≡ ok (take n s)
start_ok s n = ground arith

rest_ok : (s : Identity) (n : ℕ) → n ≤ length s → substr_from s (some n) ≡ ok (drop n s)
rest_ok s n le = ground (arith, le)

-- The value that a sample gives to the key, if it gives one.
abbrev pub value_for : (Identity → Option Bool) → Identity → Bool → ConfigPair → Option Bool
value_for convert key valid pair =
    if valid && id_eq pair.key key then convert_bool convert pair else none

-- The last value that the samples give to the key.
unfoldable pub last_value :
    (Identity → Option Bool) → Identity → List (Bool × ConfigPair) → Option Bool
last_value convert key [] = none
last_value convert key ((valid, pair) ∷ rest) = elim (last_value convert key rest) [
  | none ↦ value_for convert key valid pair
  | some b ↦ some b
]

module _ {S : Type 0} (convert : Identity → Option Bool) (set : Bool → S → S) (c : Configurable S)
    (twice : (a b : Bool) (s : S) → set a (set b s) ≡ set a s)
    (got : (name : Identity) (pair : ConfigPair) (s : S)
      → (c.got_config name pair s).1 ≡ (
          if id_eq name (codes "DEBUG") then set_if set (convert_bool convert pair) s else s)) where
  got_start_lem :
      (b : Bool) (pair : ConfigPair) (s : S)
      → id_eq (take (length (prefix c)) pair.key) (prefix c) ≡ b
      → got_start c b pair s
        ≡ ok (
            if b && id_eq (drop (length (prefix c)) pair.key) (codes "DEBUG")
            then set_if set (convert_bool convert pair) s
            else s)
  got_start_lem false pair s start = refl
  got_start_lem true pair s start =
      rw (rest_ok pair.key (length (prefix c)) (prefix_short (prefix c) pair.key start))
        (ap ok (got (drop (length (prefix c)) pair.key) pair s))

  if_set :
      (b : Bool) (o : Option Bool) (s : S)
      → (if b then set_if set o s else s) ≡ set_if set (if b then o else none) s
  if_set true o s = refl
  if_set false o s = refl

  set_twice :
      (o o' : Option Bool) (s : S)
      → set_if set o (set_if set o' s) ≡ set_if set (elim o [ none ↦ o' | some b ↦ some b ]) s
  set_twice none o' s = refl
  set_twice (some a) none s = refl
  set_twice (some a) (some b) s = twice a b s

  got_pair_lem :
      (pair : ConfigPair) (s : S)
      → got_pair c pair s
        ≡ ok (set_if set (value_for convert (prefix c ++ codes "DEBUG") true pair) s)
  unfolding got_pair
  got_pair_lem pair s =
      let start = id_eq (take (length (prefix c)) pair.key) (prefix c) in
      rw (start_ok pair.key (length (prefix c))) (
        got_start_lem start pair s refl
        ∙ ap ok (
            if_set (start && id_eq (drop (length (prefix c)) pair.key) (codes "DEBUG"))
              (convert_bool convert pair) s
            ∙ ap (λ b. set_if set (if b then convert_bool convert pair else none) s)
                (sym (id_eq-append (prefix c) (codes "DEBUG") pair.key))))

  on_config_available_lem :
      (samples : List (Bool × ConfigPair)) (s : S)
      → on_config_available c samples s
        ≡ ok (set_if set (last_value convert (prefix c ++ codes "DEBUG") samples) s)
  unfolding on_config_available last_value
  on_config_available_lem [] s = refl
  on_config_available_lem ((true, pair) ∷ rest) s =
      let key = prefix c ++ codes "DEBUG" in
      rw (got_pair_lem pair s) (
        on_config_available_lem rest (set_if set (value_for convert key true pair) s)
        ∙ ap ok (set_twice (last_value convert key rest) (value_for convert key true pair) s))
  on_config_available_lem ((false, pair) ∷ rest) s =
      on_config_available_lem rest s
      ∙ ap ok (set_twice (last_value convert (prefix c ++ codes "DEBUG") rest) none s)

selector_got :
    (convert : Identity → Option Bool) (name : Identity) (pair : ConfigPair) (s : Selector)
    → (selector_got_config convert name pair s).1 ≡ (
        if id_eq name (codes "DEBUG")
        then set_if Selector.set_debug (convert_bool convert pair) s
        else s)
unfolding selector_got_config
selector_got convert name pair s = ground arith

controller_got :
    (convert : Identity → Option Bool) (name : Identity) (pair : ConfigPair) (c : Controller)
    → (controller_got_config convert name pair c).1 ≡ (
        if id_eq name (codes "DEBUG")
        then set_if Controller.set_debug (convert_bool convert pair) c
        else c)
unfolding controller_got_config
controller_got convert name pair c = ground arith

-- Samples of the configuration are taken without an exception. Of a selector and of a controller they
-- set nothing but the debug flag, to the last value that a valid sample gives to the key
-- `TMS_SELECTOR_DEBUG` or `TMS_CONTROLLER_DEBUG`; without one, it stays as it was.
pub on_config_available_debug :
    (convert : Identity → Option Bool) (samples : List (Bool × ConfigPair)) (s : Selector)
    (c : Controller)
    → (on_config_available (selector_configurable convert) samples s
        ≡ ok
            (set_if Selector.set_debug (last_value convert (codes "TMS_SELECTOR_DEBUG") samples) s))
      × (on_config_available (controller_configurable convert) samples c
          ≡ ok (
              set_if Controller.set_debug
                (last_value convert (codes "TMS_CONTROLLER_DEBUG") samples)
                c))
unfolding Selector.set_debug Controller.set_debug
on_config_available_debug convert samples s c = (
  on_config_available_lem convert Selector.set_debug (selector_configurable convert) (λ a b t. refl)
      (selector_got convert) samples s,
  on_config_available_lem convert Controller.set_debug (controller_configurable convert)
      (λ a b t. refl) (controller_got convert) samples c,
)
