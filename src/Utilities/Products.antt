-- ===== src/Utilities/Products.antt =====
-- common/Utils.cpp: the product information and the topic information that a device announces.
--
-- The clock is read anew for each digit: `clock n` is what its reading `n` counts. `drawn seed` is the
-- first number that the library's uniform_int_distribution(0, 9) draws with a Mersenne twister of this
-- seed, an `unsigned` of 32 bits.
use developer_resources.Prelude.{
  Every, ℕ, zero, suc, ◌+◌, ◌%◌, ◌<◌, ◌≡◌, refl, List, [], ◌∷◌, ◌++◌, Identity, codes, length, leb,
  Bool, ◌&&◌, arith,
}
use developer_resources.Setup.{Topic}

pub record ProductInfo : Type 0 where
  pub nsn : List ℕ
  pub gtin : List ℕ
  pub manufacturer_name : Identity
  pub model_name : Identity
  pub model_number : Identity
  pub serial_number : Identity
  pub software_version : Identity

pub record TopicInfo : Type 0 where
  pub data_model_version : Identity
  pub published_conditional_topics : List Topic
  pub published_optional_topics : List Topic
  pub supported_request_topics : List Topic

abbrev pub get_topic_info : List Topic → List Topic → List Topic → TopicInfo
get_topic_info conditional optional subscribed = record {
  data_model_version = codes "2.0.2";
  published_conditional_topics = conditional;
  published_optional_topics = optional;
  supported_request_topics = subscribed;
}

abbrev pub is_digit : ℕ → Bool
is_digit c = leb 48 c && leb c 57

module _ (drawn : ℕ → ℕ) where
  abbrev pub gen_numeric_char : ℕ → ℕ
  gen_numeric_char now = 48 + drawn (now % 4294967296)

  -- The digits of a loop of `count` rounds, the first of them with the reading `n` of the clock.
  unfoldable pub gen_numeric_chars : (ℕ → ℕ) → ℕ → ℕ → List ℕ
  gen_numeric_chars clock n zero = []
  gen_numeric_chars clock n (suc count) =
      gen_numeric_char (clock n) ∷ gen_numeric_chars clock (suc n) count

  abbrev pub get_nato_stock_number : (ℕ → ℕ) → ℕ → List ℕ
  get_nato_stock_number clock n = codes "611000" ++ gen_numeric_chars clock n 7

  abbrev pub get_global_trade_item_number : (ℕ → ℕ) → ℕ → List ℕ
  get_global_trade_item_number clock n = gen_numeric_chars clock n 14

  abbrev pub get_product_info : (ℕ → ℕ) → ProductInfo
  get_product_info clock = record {
    nsn = get_nato_stock_number clock 0;
    gtin = get_global_trade_item_number clock 7;
    manufacturer_name = codes "OCI TMS Demo";
    model_name = codes "OCI TMS Model Name";
    model_number = codes "OCI TMS Model Number";
    serial_number = codes "OCI TMS Serial Number";
    software_version = codes "0.1";
  }

  module _ (in_range : (seed : ℕ) → drawn seed < 10) where
    gen_numeric_chars-Every :
        (clock : ℕ → ℕ) (n count : ℕ)
        → Every is_digit (gen_numeric_chars clock n count)
          × (length (gen_numeric_chars clock n count) ≡ count)
    unfolding gen_numeric_chars
    gen_numeric_chars-Every clock n zero = (tt, refl)
    gen_numeric_chars-Every clock n (suc count) =
        let (digits, size) = gen_numeric_chars-Every clock (suc n) count in
        let r = in_range (clock n % 4294967296) in
        ((ground (arith, r), digits), omega (arith, size))

    -- Where the library draws numbers below 10, the NATO stock number of a product is 13 digits, six of them
    -- 611000, and its trade item number is 14, as their fixed lengths want, whatever the clock reads.
    pub get_product_info_digits :
        (clock : ℕ → ℕ)
        → Every is_digit (get_product_info clock).nsn
          × (length (get_product_info clock).nsn ≡ 13)
          × Every is_digit (get_product_info clock).gtin
          × (length (get_product_info clock).gtin ≡ 14)
    get_product_info_digits clock =
        let (digits, size) = gen_numeric_chars-Every clock 0 7 in
        let (digits', size') = gen_numeric_chars-Every clock 7 14 in
        (
          (refl, (refl, (refl, (refl, (refl, (refl, digits)))))),
          omega (arith, size),
          digits',
          size',
        )
