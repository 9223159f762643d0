-- ===== src/Pcr/Tests.antt =====
-- Runs of the bank, and the theorems at concrete inputs.
use pcr_oracle.Common.{◌≡◌, refl, some, replicate}
use pcr_oracle.Common.Bytes.{codes}
use pcr_oracle.Common.Outcome.{ok}
use pcr_oracle.Digest.Sample.{sha256}
use pcr_oracle.Pcr.{
  TpmPcrBank, pcr_bank_register_max, pcr_bank_get_register, pcr_bank_wants_pcr, mask_bit,
  pcr_bank_init_from_zero, initial_register,
}
use pcr_oracle.Pcr.Bank.{IsZeroed, pcr_bank_init_from_zero_lem}

-- Registers 4 and 9.
abbrev two_registers : TpmPcrBank
two_registers = record {
  pcr_mask = 0x210;
  valid_mask = 0;
  algo_name = some (codes "sha256");
  algo_info = sha256;
  pcr = replicate 24 (initial_register sha256);
}

get_register_runs : pcr_bank_get_register two_registers 9 (some (codes "SHA256")) ≡ ok (some 9)
unfolding pcr_bank_get_register pcr_bank_wants_pcr mask_bit
get_register_runs = refl

pcr_bank_init_from_zero_lem_example :
    (bank' : TpmPcrBank) × (pcr_bank_init_from_zero two_registers ≡ ok bank')
    × IsZeroed 0 pcr_bank_register_max two_registers bank'
pcr_bank_init_from_zero_lem_example = pcr_bank_init_from_zero_lem two_registers refl
