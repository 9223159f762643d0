-- ===== src/Predictor/Verify/Agreement.antt =====
-- What the number of mismatches says about the two banks.
use pcr_oracle.Common.{
  ℕ, zero, suc, ◌+◌, ◌≤◌, ◌<◌, ◌≡◌, ◌↔◌, refl, Bool, true, false, not, ◌&&◌, none, some, ◌==◌,
  ==_iff, if◌then◌else◌, arith, Bool-cases, inl, inr,
}
use pcr_oracle.Common.Outcome.{ok}
use pcr_oracle.Digest.{digest_is_zero, digest_equal}
use pcr_oracle.Pcr.{TpmPcrBank, pcr_bank_register_max, get_pcr}
use pcr_oracle.Pcr.Masks.{
  wants_register, is_valid, pcr_bank_get_register_lem, pcr_bank_register_is_valid_lem,
}
use pcr_oracle.Predictor.Verify.{
  actual_register, is_mismatch, verify_register, verify_registers, predictor_verify,
}

-- A predicted register agrees with the actual bank: with the value there, where there is one, and
-- otherwise it was never extended.
abbrev pub agrees : TpmPcrBank → TpmPcrBank → ℕ → Bool
agrees prediction actual i =
    if is_valid actual i && wants_register actual i
    then digest_equal (get_pcr prediction i) (get_pcr actual i)
    else digest_is_zero (get_pcr prediction i)

abbrev differs : TpmPcrBank → TpmPcrBank → ℕ → Bool
differs prediction actual i = wants_register prediction i && not (agrees prediction actual i)

actual_register_lem :
    (actual : TpmPcrBank) (i : ℕ)
    → i < pcr_bank_register_max
    → actual_register actual i
      ≡ ok (if is_valid actual i && wants_register actual i then some i else none)
unfolding actual_register
actual_register_lem actual i h = elim (Bool-cases (is_valid actual i)) [
  | inl v ↦ rw (
    pcr_bank_register_is_valid_lem actual i (omega arith),
    v,
    pcr_bank_get_register_lem actual i h,
  )
  | inr v ↦ rw (pcr_bank_register_is_valid_lem actual i (omega arith), v)
]

verify_register_lem :
    (prediction actual : TpmPcrBank) (i : ℕ)
    → i < pcr_bank_register_max
    → verify_register prediction actual i ≡ ok (differs prediction actual i)
unfolding verify_register is_mismatch
verify_register_lem prediction actual i h = elim (Bool-cases (wants_register prediction i)) [
  | inl w ↦ elim (Bool-cases (is_valid actual i && wants_register actual i)) [
    | inl a ↦ rw (pcr_bank_get_register_lem prediction i h, w, actual_register_lem actual i h, a)
    | inr a ↦ rw (pcr_bank_get_register_lem prediction i h, w, actual_register_lem actual i h, a)
  ]
  | inr w ↦ rw (pcr_bank_get_register_lem prediction i h, w)
]

verify_registers_lem :
    (n i hi : ℕ) (prediction actual : TpmPcrBank) (count : ℕ)
    → i + n ≡ hi
    → hi ≤ pcr_bank_register_max
    → (total : ℕ) × (verify_registers n i prediction actual count ≡ ok total)
      × (count ≤ total)
      × ((total ≡ count) ↔ ((j : ℕ) → i ≤ j → j < hi → differs prediction actual j ≡ false))
unfolding verify_registers
verify_registers_lem zero i hi prediction actual count e h =
    (count, refl, omega arith, ((λ s j lo up. absurd (omega arith)), λ f. refl))
verify_registers_lem (suc n) i hi prediction actual count e h =
    elim (Bool-cases (differs prediction actual i)) [
      | inl d ↦
          let (total, runs, more, (to, from)) =
            verify_registers_lem n (i + 1) hi prediction actual (count + 1) (omega arith) h in
          (
            total,
            rw (verify_register_lem prediction actual i (omega arith), d) runs,
            omega arith,
            (
              λ s. absurd (omega arith),
              λ f.
                  let no : differs prediction actual i ≡ false = f i (omega arith) (omega arith) in
                  cc,
            ),
          )
      | inr d ↦
          let (total, runs, more, (to, from)) =
            verify_registers_lem n (i + 1) hi prediction actual count (omega arith) h in
          (
            total,
            rw (verify_register_lem prediction actual i (omega arith), d) runs,
            more,
            (
              λ s j lo up. elim (Bool-cases (i == j)) [
                | inl e ↦ let same : i ≡ j = (==_iff i j).0 e in rw (← same) d
                | inr e ↦ let later : i + 1 ≤ j = ground (arith, e, ==_iff i j) in to s j later up
              ],
              λ f. from (λ j lo up. f j (omega arith) up),
            ),
          )
    ]

-- Verifying returns, and counts no mismatch exactly if each of the 24 registers that the prediction
-- selects agrees with the actual bank: it is equal to the register there where that is valid and
-- selected, and it is the zero digest where it is not.
pub predictor_verify_lem :
    (prediction actual : TpmPcrBank)
    → (total : ℕ) × (predictor_verify prediction actual ≡ ok total)
      × ((total ≡ 0) ↔ (
          (j : ℕ)
          → j < pcr_bank_register_max
          → wants_register prediction j ≡ true
          → agrees prediction actual j ≡ true))
unfolding predictor_verify
predictor_verify_lem prediction actual =
    let (total, runs, more, (to, from)) =
      verify_registers_lem 24 0 24 prediction actual 0 refl (omega arith) in
    (
      total,
      runs,
      (
        λ s j up w.
            let same : differs prediction actual j ≡ false = to s j (omega arith) up in
            ground (arith, same, w),
        λ f. from (λ j lo up. elim (Bool-cases (wants_register prediction j)) [
          | inl w ↦ let same : agrees prediction actual j ≡ true = f j up w in rw (w, same)
          | inr w ↦ rw w
        ]),
      ),
    )
