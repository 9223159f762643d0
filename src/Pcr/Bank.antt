-- ===== src/Pcr/Bank.antt =====
-- The registers of a bank of src/pcr.c, and `pcr_bank_init_from_zero`.
use pcr_oracle.Common.{
  ℕ, zero, suc, ◌+◌, ◌≤◌, ◌<◌, ◌≡◌, refl, ap, ◌∙◌, Bool, ◌&&◌, ◌||◌, ◌==◌, ltb, leb, arith, some,
  if◌then◌else◌, Bool-cases, inl, inr, length, get_or, replicate, length-set, get_or-set,
  length-replicate, ==_iff,
}
use pcr_oracle.Common.Bits.{test_bit}
use pcr_oracle.Common.Outcome.{ok}
use pcr_oracle.Digest.{TpmAlgoInfo, TpmEvdigest, zero_digest, evp_max_md_size}
use pcr_oracle.Pcr.{
  TpmPcrBank, pcr_bank_register_max, zero_register, zero_registers, pcr_bank_init_from_zero,
  pcr_bank_initialize, initial_register, get_pcr, set_pcr,
}
use pcr_oracle.Pcr.Masks.{
  wants_register, is_valid, marked, pcr_bank_get_register_lem, pcr_bank_mark_valid_lem,
  is_valid-marked,
}

abbrev pub zeroed : TpmEvdigest → TpmEvdigest
zeroed md = record md { octets = replicate evp_max_md_size 0 }

-- One round: the register is zeroed and marked if it is selected.
zeroed_register : TpmPcrBank → ℕ → TpmPcrBank
zeroed_register bank i =
    if wants_register bank i then marked (set_pcr bank i (zeroed (get_pcr bank i))) i else bank

zero_register_lem :
    (bank : TpmPcrBank) (i : ℕ)
    → i < pcr_bank_register_max
    → zero_register bank i ≡ ok (zeroed_register bank i)
unfolding zero_register zeroed_register
zero_register_lem bank i h = elim (Bool-cases (wants_register bank i)) [
  | inl e ↦
      rw (pcr_bank_get_register_lem bank i h, e)
        (pcr_bank_mark_valid_lem (set_pcr bank i (zeroed (get_pcr bank i))) i (omega arith))
  | inr e ↦ rw (pcr_bank_get_register_lem bank i h, e) refl
]

-- The registers from `lo` up to `hi` that the bank selects.
abbrev pub touched : ℕ → ℕ → TpmPcrBank → ℕ → Bool
touched lo hi bank j = leb lo j && (ltb j hi && wants_register bank j)

-- `bank'` is `bank` with the selected registers of a range zeroed and marked valid.
pub record IsZeroed (lo hi : ℕ) (bank bank' : TpmPcrBank) : Type 0 where
  pub same_mask : bank'.pcr_mask ≡ bank.pcr_mask
  pub same_algo : bank'.algo_info ≡ bank.algo_info
  pub same_name : bank'.algo_name ≡ bank.algo_name
  pub same_count : length bank'.pcr ≡ length bank.pcr
  pub valid : (j : ℕ) → is_valid bank' j ≡ (touched lo hi bank j || is_valid bank j)
  pub value :
      (j : ℕ)
      → j < length bank.pcr
      → get_pcr bank' j ≡ (if touched lo hi bank j then zeroed (get_pcr bank j) else get_pcr bank j)

zeroed_register-IsZeroed :
    (bank : TpmPcrBank) (i : ℕ)
    → i < length bank.pcr
    → IsZeroed i (i + 1) bank (zeroed_register bank i)
unfolding zeroed_register
zeroed_register-IsZeroed bank i h = elim (Bool-cases (wants_register bank i)) [
  | inl e ↦ rw e (record {
    same_mask = refl;
    same_algo = refl;
    same_name = refl;
    same_count = length-set bank.pcr i (zeroed (get_pcr bank i));
    valid = λ j. ground (arith, is_valid-marked bank i j, ==_iff i j);
    value = λ j hj.
        ground (arith, get_or-set bank.pcr i j (zeroed (get_pcr bank i)) zero_digest, ==_iff i j);
  })
  | inr e ↦ rw e (record {
    same_mask = refl;
    same_algo = refl;
    same_name = refl;
    same_count = refl;
    valid = λ j. ground (arith, e);
    value = λ j hj. ground (arith, e);
  })
]

IsZeroed-trans :
    {lo mid hi : ℕ} {a b c : TpmPcrBank}
    → lo ≤ mid
    → mid ≤ hi
    → IsZeroed lo mid a b
    → IsZeroed mid hi b c
    → IsZeroed lo hi a c
IsZeroed-trans {lo} {mid} {hi} {a} {b} {c} p q x y = record {
  same_mask = y.same_mask ∙ x.same_mask;
  same_algo = y.same_algo ∙ x.same_algo;
  same_name = y.same_name ∙ x.same_name;
  same_count = y.same_count ∙ x.same_count;
  valid = λ j. ground (arith, x.valid j, y.valid j, wants_same j);
  value = λ j h. ground (arith, x.value j h, y.value j (omega (arith, x.same_count)), wants_same j);
}
  where
    wants_same : (j : ℕ) → wants_register b j ≡ wants_register a j
    wants_same j = ap (λ m. test_bit m j) x.same_mask

zero_registers_lem :
    (n i hi : ℕ) (bank : TpmPcrBank)
    → i + n ≡ hi
    → hi ≤ pcr_bank_register_max
    → length bank.pcr ≡ pcr_bank_register_max
    → (bank' : TpmPcrBank) × (zero_registers n i bank ≡ ok bank') × IsZeroed i hi bank bank'
unfolding zero_registers
zero_registers_lem zero i hi bank e h count = (
  bank,
  refl,
  record {
    same_mask = refl;
    same_algo = refl;
    same_name = refl;
    same_count = refl;
    valid = λ j. ground arith;
    value = λ j hj. ground arith;
  },
)
zero_registers_lem (suc n) i hi bank e h count =
    let here = zeroed_register-IsZeroed bank i (omega arith) in
    let (bank', runs, rest) =
      zero_registers_lem n (i + 1) hi (zeroed_register bank i) (omega arith) h
        (here.same_count ∙ count) in
    (
      bank',
      rw (zero_register_lem bank i (omega arith)) runs,
      IsZeroed-trans (omega arith) (omega arith) here rest,
    )

-- On a bank of 24 registers `pcr_bank_init_from_zero` returns; afterwards a register is valid exactly if
-- it is selected by the mask or was valid before, a selected register has its 64 bytes zeroed, and
-- every other register, the masks' selection and the algorithm are as before.
pub pcr_bank_init_from_zero_lem :
    (bank : TpmPcrBank)
    → length bank.pcr ≡ pcr_bank_register_max
    → (bank' : TpmPcrBank) × (pcr_bank_init_from_zero bank ≡ ok bank')
      × IsZeroed 0 pcr_bank_register_max bank bank'
unfolding pcr_bank_init_from_zero
pcr_bank_init_from_zero_lem bank count = zero_registers_lem 24 0 24 bank refl (omega arith) count

-- Every register has the bank's algorithm, the algorithm's size, and room for any digest.
pub record IsBank (bank : TpmPcrBank) : Type 0 where
  pub count : length bank.pcr ≡ pcr_bank_register_max
  pub algo : (j : ℕ) → j < pcr_bank_register_max → (get_pcr bank j).algo ≡ some bank.algo_info
  pub size :
      (j : ℕ) → j < pcr_bank_register_max → (get_pcr bank j).size ≡ bank.algo_info.digest_size
  pub room : (j : ℕ) → j < pcr_bank_register_max → length (get_pcr bank j).octets ≡ evp_max_md_size

get_or-replicate {ℓ} : {A : Type ℓ} (n j : ℕ) (a d : A) → j < n → get_or (replicate n a) j d ≡ a
get_or-replicate zero j a d h = elim h [ ]
get_or-replicate (suc n) zero a d h = refl
get_or-replicate (suc n) (suc j) a d h = get_or-replicate n j a d (omega arith)

pub pcr_bank_initialize-IsBank :
    (mask : ℕ) (algo : TpmAlgoInfo) → IsBank (pcr_bank_initialize mask algo)
unfolding pcr_bank_initialize
pcr_bank_initialize-IsBank mask algo = record {
  count = length-replicate 24 (initial_register algo);
  algo = λ j h. ap (λ md. md.algo) (get_or-replicate 24 j (initial_register algo) zero_digest h);
  size = λ j h. ap (λ md. md.size) (get_or-replicate 24 j (initial_register algo) zero_digest h);
  room = λ j h.
      ap (λ md. length md.octets) (get_or-replicate 24 j (initial_register algo) zero_digest h);
}

-- A new value of the bank's algorithm and size keeps a bank.
pub set_pcr-IsBank :
    {bank : TpmPcrBank} (i : ℕ) (md : TpmEvdigest)
    → IsBank bank
    → md.algo ≡ some bank.algo_info
    → md.size ≡ bank.algo_info.digest_size
    → length md.octets ≡ evp_max_md_size
    → IsBank (set_pcr bank i md)
set_pcr-IsBank {bank} i md w a s r = record {
  count = length-set bank.pcr i md ∙ w.count;
  algo = λ j h. ground (arith, at j h, w.algo j h);
  size = λ j h. ground (arith, at j h, w.size j h);
  room = λ j h. ground (arith, at j h, w.room j h);
}
  where
    at : (j : ℕ) → j < 24 → get_pcr (set_pcr bank i md) j ≡ (if i == j then md else get_pcr bank j)
    at j h = get_or-set bank.pcr i j md zero_digest (omega (arith, w.count))

pub IsZeroed-IsBank :
    {lo hi : ℕ} {bank bank' : TpmPcrBank} → IsZeroed lo hi bank bank' → IsBank bank → IsBank bank'
IsZeroed-IsBank {lo} {hi} {bank} {bank'} z w = record {
  count = z.same_count ∙ w.count;
  algo = λ j h. ground (arith, z.value j (in_range j h), w.algo j h, z.same_algo);
  size = λ j h. ground (arith, z.value j (in_range j h), w.size j h, z.same_algo);
  room = λ j h. ground (arith, z.value j (in_range j h), w.room j h, length-replicate {A = ℕ} 64 0);
}
  where
    in_range : (j : ℕ) → j < 24 → j < length bank.pcr
    in_range j h = omega (arith, w.count)
