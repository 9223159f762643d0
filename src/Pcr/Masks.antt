-- ===== src/Pcr/Masks.antt =====
-- The two masks of a bank as sets of register numbers.
use pcr_oracle.Common.{
  ℕ, ◌^◌, ◌<◌, ◌≡◌, refl, Bool, true, false, not, ◌||◌, ◌==◌, ltb, arith, none, some, bit_or,
  if◌then◌else◌,
}
use pcr_oracle.Common.Bits.{test_bit, bit_and-test_bit, test_bit-bit_or}
use pcr_oracle.Common.Outcome.{ok}
use pcr_oracle.Pcr.{
  TpmPcrBank, mask_bit, pcr_bank_wants_pcr, pcr_bank_mark_valid, pcr_bank_register_is_valid,
  pcr_bank_get_register, pcr_bank_register_max,
}

abbrev pub wants_register : TpmPcrBank → ℕ → Bool
wants_register bank i = test_bit bank.pcr_mask i

abbrev pub is_valid : TpmPcrBank → ℕ → Bool
is_valid bank i = test_bit bank.valid_mask i

not-not : (b : Bool) → not (not b) ≡ b
not-not true = refl
not-not false = refl

pub mask_bit_lem : (mask i : ℕ) → i < 32 → mask_bit mask i ≡ ok (test_bit mask i)
unfolding mask_bit
mask_bit_lem mask i h =
    let small : ltb i 32 ≡ true = ground arith in rw (small, bit_and-test_bit, not-not)

pub pcr_bank_wants_pcr_lem :
    (bank : TpmPcrBank) (i : ℕ) → i < 32 → pcr_bank_wants_pcr bank i ≡ ok (wants_register bank i)
unfolding pcr_bank_wants_pcr
pcr_bank_wants_pcr_lem bank i h = mask_bit_lem bank.pcr_mask i h

pub pcr_bank_register_is_valid_lem :
    (bank : TpmPcrBank) (i : ℕ) → i < 32 → pcr_bank_register_is_valid bank i ≡ ok (is_valid bank i)
unfolding pcr_bank_register_is_valid
pcr_bank_register_is_valid_lem bank i h = mask_bit_lem bank.valid_mask i h

-- A register number from 0 to 23: the pointer, exactly if the mask selects it.
pub pcr_bank_get_register_lem :
    (bank : TpmPcrBank) (i : ℕ)
    → i < pcr_bank_register_max
    → pcr_bank_get_register bank i none ≡ ok (if wants_register bank i then some i else none)
unfolding pcr_bank_get_register
pcr_bank_get_register_lem bank i h =
    let small : ltb i 24 ≡ true = ground arith in
    rw (pcr_bank_wants_pcr_lem bank i (omega arith)) (ground arith)

-- What `pcr_bank_mark_valid` leaves: one more valid register.
abbrev pub marked : TpmPcrBank → ℕ → TpmPcrBank
marked bank i = record bank { valid_mask = bit_or bank.valid_mask (2 ^ i) }

pub pcr_bank_mark_valid_lem :
    (bank : TpmPcrBank) (i : ℕ) → i < 32 → pcr_bank_mark_valid bank i ≡ ok (marked bank i)
unfolding pcr_bank_mark_valid
pcr_bank_mark_valid_lem bank i h = let small : ltb i 32 ≡ true = ground arith in rw small

pub is_valid-marked :
    (bank : TpmPcrBank) (i j : ℕ) → is_valid (marked bank i) j ≡ (i == j || is_valid bank j)
is_valid-marked bank i j = test_bit-bit_or bank.valid_mask i j
