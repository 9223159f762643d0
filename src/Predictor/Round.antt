-- ===== src/Predictor/Round.antt =====
-- One round of the update loop, `process_event`: what it relies on and what it does to the bank.
pub mod Steps
use pcr_oracle.Common.{
  ℕ, ◌<◌, ◌≡◌, refl, sym, ap, ◌∙◌, Bool, true, false, ◌&&◌, Option, none, some, List, [], ◌∷◌, ◌++◌,
  ◌==◌, if◌then◌else◌, arith, Bool-cases, inl, inr,
}
use mathlib.Core.Path.{subst}
use pcr_oracle.Common.Bits.{test_bit}
use pcr_oracle.Common.Outcome.{ok}
use pcr_oracle.Digest.{
  TpmAlgoInfo, TpmEvdigest, AlgoTable, static_table, log_table, same_table, value_of, algo_eq,
}
use pcr_oracle.Digest.Openssl.{Evp, IsStreaming}
use pcr_oracle.Digest.Compute.{IsSupported}
use pcr_oracle.Pcr.{TpmPcrBank, pcr_bank_register_max, get_pcr}
use pcr_oracle.Pcr.Masks.{wants_register, is_valid, pcr_bank_get_register_lem}
use pcr_oracle.Pcr.Bank.{IsBank}
use pcr_oracle.EventLog.{
  TpmEvent, ParsedEvent, Strategy, parse_none, parse_rehash, copy, no_action, tpm_event_get_digest,
  find_digest, efi_gpt_event, efi_boot_services_application,
}
use pcr_oracle.Predictor.Extend.{
  pcr_bank_extend_register, extended, pcr_bank_extend_register_lem, extended-IsBank, value-extended,
}
use pcr_oracle.Predictor.Update.{
  RehashOps, Step, process_event, select_digest, extend_event, looked_ahead, next_stage, hash_event,
}

-- A digest was predicted for the event: `ev->predicted_digest.algo` is not NULL.
abbrev pub is_predicted : {Other : Type 0} → TpmEvent Other → Bool
is_predicted ev = elim ev.predicted_digest.algo [ none ↦ false | some a ↦ true ]

module _ (evp : Evp) (laws : IsStreaming evp) {Other Ctx : Type 0} (ops : RehashOps Other Ctx)
    (algo_info : TpmAlgoInfo) (m : evp.Md) where
  -- The state of the bank in the loop: a bank of the predictor's algorithm, which OpenSSL supports, in
  -- which exactly the selected registers are valid.
  pub record IsReady (bank : TpmPcrBank) : Type 0 where
    pub bank_ok : IsBank bank
    pub same_algo : bank.algo_info ≡ algo_info
    pub supported : IsSupported evp bank.algo_info m
    pub valid : (i : ℕ) → i < pcr_bank_register_max → is_valid bank i ≡ wants_register bank i

  -- An event as the reader leaves it: for one of the 24 registers, with a digest of the algorithm, and
  -- with nothing predicted yet.
  pub record IsReadable (ev : TpmEvent Other) : Type 0 where
    pub in_range : ev.pcr_index < pcr_bank_register_max
    pub logged : TpmEvdigest
    pub has_digest : tpm_event_get_digest ev algo_info ≡ some logged
    pub unpredicted : ev.predicted_digest.algo ≡ none

  abbrev pub OfAlgo : Option TpmEvdigest → Type 0
  OfAlgo none = Unit
  OfAlgo (some md) = algo_eq (some algo_info) md.algo ≡ true

  -- The lookahead and the re-hashing return, and a digest that they give is of the algorithm.
  pub record IsTotal : Type 0 where
    pub partition_returns :
        (ev : TpmEvent Other) (rest : List (TpmEvent Other))
        → (p : Option (ParsedEvent Other)) × (ops.lookahead_efi_partition ev rest ≡ ok p)
    pub rehash_returns :
        (ev : TpmEvent Other) (ctx : Ctx)
        → (md : Option TpmEvdigest) × (ctx' : Ctx) × (ops.rehash ev ctx ≡ ok (md, ctx')) × OfAlgo md

  -- The digest that was found anew, or the logged one where there is none.
  abbrev pub or_logged : Option TpmEvdigest → TpmEvdigest → TpmEvdigest
  or_logged none old = old
  or_logged (some md) old = md

  -- What is predicted for an event with the logged digest `old`, by its strategy: nothing new, the logged
  -- digest, or what re-hashing the event finds, and the logged digest where it finds none. Only the
  -- re-hash changes the context.
  abbrev pub Predicts : Strategy → TpmEvent Other → Ctx → Ctx → TpmEvdigest → TpmEvdigest → Type 0
  Predicts no_action ev ctx ctx' old out = (ctx' ≡ ctx) × (out ≡ ev.predicted_digest)
  Predicts copy ev ctx ctx' old out = (ctx' ≡ ctx) × (out ≡ old)
  Predicts parse_none ev ctx ctx' old out = (ctx' ≡ ctx) × (out ≡ old)
  Predicts parse_rehash ev ctx ctx' old out =
      (new : Option TpmEvdigest) × (ops.rehash ev ctx ≡ ok (new, ctx')) × (out ≡ or_logged new old)

  -- The parsed form after looking ahead: only that of a partition table event changes.
  abbrev pub IsLookedAhead :
      TpmEvent Other → List (TpmEvent Other) → Option (ParsedEvent Other) → Type 0
  IsLookedAhead ev rest form =
      ((ev.event_type == efi_gpt_event) ≡ true → ops.lookahead_efi_partition ev rest ≡ ok form)
      × ((ev.event_type == efi_gpt_event) ≡ false → form ≡ ev.parsed)

  -- The context of a re-hash: a boot services application looks ahead to the one that it loads.
  abbrev pub context_of : TpmEvent Other → List (TpmEvent Other) → Ctx → Ctx
  context_of ev rest ctx =
      if ev.event_type == efi_boot_services_application
      then ops.lookahead_shim_loaded ev rest ctx
      else ctx

  -- What one round makes of an event, with the events behind it, and of the context: the parsed form and
  -- the prediction change at most, an event of a register that is not selected stays with the context,
  -- and that of a selected one gets its prediction.
  pub record IsUpdated (mask : ℕ) (rest : List (TpmEvent Other)) (ev ev' : TpmEvent Other)
      (ctx ctx' : Ctx) : Type 0 where
    pub same : ev' ≡ record ev { parsed = ev'.parsed; predicted_digest = ev'.predicted_digest }
    pub unselected : test_bit mask ev.pcr_index ≡ false → (ev' ≡ ev) × (ctx' ≡ ctx)
    pub selected :
        test_bit mask ev.pcr_index ≡ true
        → (old : TpmEvdigest) → tpm_event_get_digest ev algo_info ≡ some old
        → IsLookedAhead ev rest ev'.parsed
          × Predicts ev.rehash_strategy
              (record ev { parsed = ev'.parsed })
              (context_of (record ev { parsed = ev'.parsed }) rest ctx)
              ctx'
              old
              ev'.predicted_digest

  -- What one round does to the bank: register `p` is extended if a digest was predicted for it.
  pub record IsStep (bank : TpmPcrBank) (ev : TpmEvent Other) (s : Step Other Ctx) : Type 0 where
    pub ready : IsReady s.bank
    pub same_index : s.event.pcr_index ≡ ev.pcr_index
    pub same_mask : s.bank.pcr_mask ≡ bank.pcr_mask
    pub value :
        (p : ℕ)
        → p < pcr_bank_register_max
        → value_of (get_pcr s.bank p) ≡ (
            if s.event.pcr_index == p && is_predicted s.event
            then evp.digest m (value_of (get_pcr bank p) ++ value_of s.event.predicted_digest)
            else value_of (get_pcr bank p))
