-- ===== src/Handshaking/Readers.antt =====
-- common/HeartbeatDataReaderListenerImpl.cpp and common/DeviceInfoDataReaderListenerImpl.cpp: the loop
-- that takes one sample after another, which the two have in common.
--
-- `rcs n` is what the n-th call of `take_next_sample` returns, and `samples n` the sample it takes;
-- `callback` is the listener's `callback_`, which may be empty. The loop runs on fuel: `none` is a loop that goes on.
use developer_resources.Prelude.{
  ℕ, zero, suc, ◌+◌, ◌<◌, ◌≡◌, refl, ap, subst, ◌∙◌, sym, Bool, true, false, Option, none, some,
  if◌then◌else◌, Result, ok, err, arith,
}
use developer_resources.Data.{ReturnCode, is_ok}

module _ (rcs : ℕ → ReturnCode) where
  -- The calls `n`, …, `n + size - 1` return OK and the next one does not.
  pub record Ends (n size : ℕ) : Type 0 where
    pub fine : (k : ℕ) → k < size → is_ok (rcs (n + k)) ≡ true
    pub last : is_ok (rcs (n + size)) ≡ false

add_zero : (n : ℕ) → n + 0 ≡ n
add_zero n = omega arith

zero_add : (n : ℕ) → 0 + n ≡ n
zero_add n = omega arith

add_suc : (n k : ℕ) → n + suc k ≡ suc n + k
add_suc n k = omega arith

module _ {E S M : Type 0} (rcs : ℕ → ReturnCode) (samples : ℕ → M) where
  -- An empty callback leaves the sample with a message.
  abbrev pub call_back : Option (M → S → Result E S) → M → S → Result E S
  call_back none x s = ok s
  call_back (some callback) x s = callback x s

  unfoldable pub take_samples : Option (M → S → Result E S) → ℕ → ℕ → S → Option (Result E S)
  take_samples callback zero n s = none
  take_samples callback (suc fuel) n s = elim (is_ok (rcs n)) [
    | false ↦ some (ok s)
    | true ↦ elim (call_back callback (samples n) s) [
      | err e ↦ some (err e)
      | ok s' ↦ take_samples callback fuel (suc n) s'
    ]
  ]

  -- `narrowed` is whether the cast of the reader succeeds.
  unfoldable pub on_data_available :
      Bool → Option (M → S → Result E S) → ℕ → S → Option (Result E S)
  unfolding take_samples
  on_data_available narrowed callback fuel s =
      if narrowed then take_samples callback fuel 0 s else some (ok s)

  -- Each sample taken is handled without a fault, from states that fit `P` to states that fit it.
  abbrev pub Handles : (ℕ → S → Type 0) → (M → S → Result E S) → Type 0
  Handles P callback =
      (k : ℕ) (s : S)
      → is_ok (rcs k) ≡ true
      → P k s
      → (s' : S) × (callback (samples k) s ≡ ok s') × P (suc k) s'

  take_samples-Ends :
      (P : ℕ → S → Type 0) (callback : M → S → Result E S) (n size : ℕ) (s : S)
      → Handles P callback
      → Ends rcs n size
      → P n s
      → (s' : S) × (take_samples (some callback) (suc size) n s ≡ some (ok s')) × P (n + size) s'
  unfolding take_samples
  take_samples-Ends P callback n zero s handles ends v =
      let last : is_ok (rcs n) ≡ false = ap (λ k. is_ok (rcs k)) (sym (add_zero n)) ∙ ends.last in
      (s, rw (last, take_samples) refl, subst (λ k. P k s) (sym (add_zero n)) v)
  take_samples-Ends P callback n (suc size) s handles ends v =
      let first : is_ok (rcs n) ≡ true =
        ap (λ k. is_ok (rcs k)) (sym (add_zero n)) ∙ ends.fine 0 (omega arith) in
      let (s', run, v') = handles n s first v in
      let later : Ends rcs (suc n) size = record {
        fine = λ k small.
            ap (λ j. is_ok (rcs j)) (sym (add_suc n k)) ∙ ends.fine (suc k) (omega (arith, small));
        last = ap (λ j. is_ok (rcs j)) (sym (add_suc n size)) ∙ ends.last;
      } in
      let (s'', runs, v'') = take_samples-Ends P callback (suc n) size s' handles later v' in
      (
        s'',
        rw (first, take_samples) (rw (run, take_samples) runs),
        subst (λ k. P k s'') (sym (add_suc n size)) v'',
      )

  -- If the reader has `size` samples and handling one of them does not fault, the loop comes to its end
  -- after `size` calls of the callback, each for one sample in their order, and one more of the reader.
  pub on_data_available-Ends :
      (P : ℕ → S → Type 0) (callback : M → S → Result E S) (size : ℕ) (s : S)
      → Handles P callback
      → Ends rcs 0 size
      → P 0 s
      → (s' : S) × (on_data_available true (some callback) (suc size) s ≡ some (ok s')) × P size s'
  unfolding on_data_available
  on_data_available-Ends P callback size s handles ends v =
      let (s', run, v') = take_samples-Ends P callback 0 size s handles ends v in
      (s', run, subst (λ k. P k s') (zero_add size) v')
