-- ===== src/Pcr.antt =====
-- src/pcr.c: the bank of PCR values that the program predicts.
pub mod Masks
pub mod Bank
mod Tests
use pcr_oracle.Common.{
  ℕ, zero, suc, ◌+◌, ◌-◌, ◌*◌, ◌^◌, ◌%◌, bit_and, bit_or, Bool, true, false, not, Option, none,
  some, List, [], ◌∷◌, ◌++◌, ltb, ◌==◌, if◌then◌else◌, length, take, drop, replicate, get_or, set,
}
use pcr_oracle.Common.Bytes.{Octets, CString, case_eq}
use pcr_oracle.Common.Outcome.{Outcome, ok, fatal, undefined, ◌>>=◌, ◌>>◌, defined_if}
use pcr_oracle.Digest.{TpmAlgoInfo, TpmEvdigest, zero_digest, evp_max_md_size}

abbrev pub pcr_bank_register_max : ℕ
pcr_bank_register_max = 24

pub record TpmPcrBank : Type 0 where
  pub pcr_mask : ℕ
  pub valid_mask : ℕ
  pub algo_name : Option CString
  pub algo_info : TpmAlgoInfo
  pub pcr : List TpmEvdigest

abbrev pub initial_register : TpmAlgoInfo → TpmEvdigest
initial_register algo = record zero_digest { algo = some algo; size = algo.digest_size }

unfoldable pub pcr_bank_initialize : ℕ → TpmAlgoInfo → TpmPcrBank
pcr_bank_initialize pcr_mask algo = record {
  pcr_mask = pcr_mask;
  valid_mask = 0;
  algo_name = algo.openssl_name;
  algo_info = algo;
  pcr = replicate pcr_bank_register_max (initial_register algo);
}

-- `mask & (1 << index)` as a truth value, on 32-bit words. C gives no meaning to a shift by 32 or more.
unfoldable pub mask_bit : ℕ → ℕ → Outcome Bool
mask_bit mask index = do defined_if (ltb index 32); ok (not (bit_and mask (2 ^ index) == 0))

unfoldable pub pcr_bank_wants_pcr : TpmPcrBank → ℕ → Outcome Bool
pcr_bank_wants_pcr bank index = mask_bit bank.pcr_mask index

unfoldable pub pcr_bank_mark_valid : TpmPcrBank → ℕ → Outcome TpmPcrBank
pcr_bank_mark_valid bank index = do
  defined_if (ltb index 32)
  ok (record bank { valid_mask = bit_or bank.valid_mask (2 ^ index) })

unfoldable pub pcr_bank_register_is_valid : TpmPcrBank → ℕ → Outcome Bool
pcr_bank_register_is_valid bank index = mask_bit bank.valid_mask index

-- `algo && strcasecmp(algo, bank->algo_name)`; strcasecmp() on a NULL name is undefined.
other_algo : Option CString → Option CString → Outcome Bool
unfolding case_eq
other_algo none name = ok false
other_algo (some algo) none = undefined
other_algo (some algo) (some name) = ok (not (case_eq algo name))

-- The result `&bank->pcr[index]` is the index; a pointer past the array is undefined.
register_pointer : ℕ → Outcome (Option ℕ)
register_pointer index = do defined_if (ltb index pcr_bank_register_max); ok (some index)

unfoldable pub pcr_bank_get_register : TpmPcrBank → ℕ → Option CString → Outcome (Option ℕ)
unfolding other_algo register_pointer
pcr_bank_get_register bank index algo = do
  other ← other_algo algo bank.algo_name
  if other then ok none else do
    wants ← pcr_bank_wants_pcr bank index
    if wants then register_pointer index else ok none

abbrev pub get_pcr : TpmPcrBank → ℕ → TpmEvdigest
get_pcr bank index = get_or bank.pcr index zero_digest

-- A write to one register of the array.
abbrev pub set_pcr : TpmPcrBank → ℕ → TpmEvdigest → TpmPcrBank
set_pcr bank index md = record bank { pcr = set bank.pcr index md }

-- memset(pcr->data, 0, pcr->size); pcr->data[pcr->size-1] = locality
locality_value : TpmEvdigest → ℕ → TpmEvdigest
locality_value pcr locality = record pcr {
  octets = replicate (pcr.size - 1) 0 ++ (locality ∷ drop pcr.size pcr.octets);
}

-- The error message is all that happens where the register is not valid.
unfoldable pub pcr_bank_set_locality : TpmPcrBank → ℕ → ℕ → Outcome TpmPcrBank
unfolding locality_value
pcr_bank_set_locality bank pcr_index locality = do
  valid ← pcr_bank_register_is_valid bank pcr_index
  if not valid then ok bank else do
    defined_if (ltb pcr_index pcr_bank_register_max)
    defined_if (ltb 0 (get_pcr bank pcr_index).size)
    ok (set_pcr bank pcr_index (locality_value (get_pcr bank pcr_index) locality))

-- One round of the loop of `pcr_bank_init_from_zero`.
zero_register : TpmPcrBank → ℕ → Outcome TpmPcrBank
zero_register bank i = do
  pcr ← pcr_bank_get_register bank i none
  elim pcr [
    | none ↦ ok bank
    | some r ↦
        pcr_bank_mark_valid
          (set_pcr bank r (record (get_pcr bank r) { octets = replicate evp_max_md_size 0 })) i
  ]

-- The loop from register `i` on, with `n` registers to go.
zero_registers : ℕ → ℕ → TpmPcrBank → Outcome TpmPcrBank
unfolding zero_register
zero_registers zero i bank = ok bank
zero_registers (suc n) i bank = do bank' ← zero_register bank i; zero_registers n (i + 1) bank'

unfoldable pub pcr_bank_init_from_zero : TpmPcrBank → Outcome TpmPcrBank
unfolding zero_registers
pcr_bank_init_from_zero bank = zero_registers pcr_bank_register_max 0 bank
