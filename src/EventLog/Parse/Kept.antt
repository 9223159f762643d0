-- ===== src/EventLog/Parse/Kept.antt =====
-- What `tpm_event_parse` of src/eventlog.c changes of an event.
use pcr_oracle.Common.{
  ℕ, ◌≡◌, refl, ap, ◌||◌, Option, none, some, ◌⊎◌, inl, inr, ◌==◌, get_or, length, Bool-cases,
}
use pcr_oracle.Common.Bytes.{Octets}
use pcr_oracle.Common.Outcome.{Outcome, ok, Holds, Holds-if, Holds->>=, Holds-any}
use pcr_oracle.Buffer.{Buffer, buffer_init_read}
use pcr_oracle.EventLog.{
  TpmEvent, ParsedEvent, copy, event_event_tag, event_ipl, efi_variable_authority,
  efi_variable_boot, efi_variable_driver_config, efi_boot_services_application,
  efi_boot_services_driver, efi_gpt_event,
}
use pcr_oracle.EventLog.Forms.{BootEvent}
use pcr_oracle.EventLog.Parse.{
  tpm_event_parse, parse_by_type, tpm_event_parse_ipl, keep_parsed, bsa_form, as_copy, parse_unless,
}

module _ {Bsa : Type 0} where
  -- The event as it was, or with the strategy `copy`.
  abbrev IsKept : TpmEvent (BootEvent Bsa) → TpmEvent (BootEvent Bsa) → Type 0
  IsKept ev ev' = (ev' ≡ ev) ⊎ (ev' ≡ as_copy ev)

  ipl-IsKept : (ev : TpmEvent (BootEvent Bsa)) → IsKept ev (tpm_event_parse_ipl ev).1
  unfolding tpm_event_parse_ipl
  ipl-IsKept ev = elim (Bool-cases (length ev.event_data == 0 || get_or ev.event_data 0 0 == 0)) [
    | inl e ↦ inr (rw e refl)
    | inr e ↦ inl (rw e refl)
  ]

module _ {Bsa ScanCtx : Type 0} (convert_from_utf16le : ℕ → Octets → Option Octets)
    (parse_efi_bsa : TpmEvent (BootEvent Bsa)
      → Buffer
      → ScanCtx
      → Outcome (Option Bsa × ScanCtx)) where
  abbrev KeptForm :
      TpmEvent (BootEvent Bsa)
      → Option (ParsedEvent (BootEvent Bsa)) × TpmEvent (BootEvent Bsa) × ScanCtx
      → Type 0
  KeptForm ev (form, ev', ctx) = IsKept ev ev'

  bsa-KeptForm :
      (ev : TpmEvent (BootEvent Bsa)) (r : Option Bsa × ScanCtx)
      → Holds (KeptForm ev) (bsa_form convert_from_utf16le parse_efi_bsa ev r)
  unfolding bsa_form
  bsa-KeptForm ev (none, ctx) = inl refl
  bsa-KeptForm ev (some e, ctx) = inl refl

  parse_by_type-KeptForm :
      (ev : TpmEvent (BootEvent Bsa)) (ctx : ScanCtx)
      → Holds (KeptForm ev) (parse_by_type convert_from_utf16le parse_efi_bsa ev ctx)
  unfolding parse_by_type
  parse_by_type-KeptForm ev ctx =
      let Q = KeptForm ev in
      let t = ev.event_type in
      let buf = buffer_init_read ev.event_data (length ev.event_data) in
      Holds-if Q (t == event_event_tag) _ _ (inl refl) (
        Holds-if Q (t == event_ipl) _ _ (ipl-IsKept ev) (
          Holds-if Q
            (t == efi_variable_authority
              || (t == efi_variable_boot || t == efi_variable_driver_config))
            _ _ (inl refl)
            (Holds-if Q (t == efi_boot_services_application || t == efi_boot_services_driver) _ _
              (Holds->>= (λ r. Unit {0}) Q (parse_efi_bsa ev buf ctx)
                (bsa_form convert_from_utf16le parse_efi_bsa ev)
                (Holds-any (parse_efi_bsa ev buf ctx)) (λ r u. bsa-KeptForm ev r))
              (Holds-if Q (t == efi_gpt_event) _ _ (inl refl) (inl refl)))))

  -- The register stays, the strategy changes to `copy` at most, and a parsed form stays.
  abbrev pub IsParse : TpmEvent (BootEvent Bsa) → TpmEvent (BootEvent Bsa) × ScanCtx → Type 0
  IsParse ev (ev', ctx) =
      (ev'.pcr_index ≡ ev.pcr_index)
      × ((ev'.rehash_strategy ≡ ev.rehash_strategy) ⊎ (ev'.rehash_strategy ≡ copy))
      × ((p : ParsedEvent (BootEvent Bsa)) → ev.parsed ≡ some p → ev'.parsed ≡ some p)

  keep_parsed-IsParse :
      (ev : TpmEvent (BootEvent Bsa)) (form : Option (ParsedEvent (BootEvent Bsa)))
      (ev1 : TpmEvent (BootEvent Bsa)) (ctx : ScanCtx)
      → ev.parsed ≡ none
      → IsKept ev ev1
      → Holds (IsParse ev) (keep_parsed convert_from_utf16le parse_efi_bsa (form, ev1, ctx))
  unfolding keep_parsed
  keep_parsed-IsParse ev none ev1 ctx n (inl e) = rw e (refl, inl refl, λ p q. q)
  keep_parsed-IsParse ev none ev1 ctx n (inr e) = rw e (refl, inr refl, λ p q. q)
  keep_parsed-IsParse ev (some f) ev1 ctx n (inl e) = rw e (refl, inl refl, λ p q. cc)
  keep_parsed-IsParse ev (some f) ev1 ctx n (inr e) = rw e (refl, inr refl, λ p q. cc)

  parse_unless-IsParse :
      (form : Option (ParsedEvent (BootEvent Bsa))) (ev : TpmEvent (BootEvent Bsa)) (ctx : ScanCtx)
      → ev.parsed ≡ form
      → Holds (IsParse ev) (parse_unless convert_from_utf16le parse_efi_bsa form ev ctx)
  unfolding parse_unless
  parse_unless-IsParse (some p) ev ctx e = (refl, inl refl, λ p q. q)
  parse_unless-IsParse none ev ctx e =
      Holds->>= (KeptForm ev) (IsParse ev) (parse_by_type convert_from_utf16le parse_efi_bsa ev ctx)
        (keep_parsed convert_from_utf16le parse_efi_bsa) (parse_by_type-KeptForm ev ctx)
        (λ r k. keep_parsed-IsParse ev r.0 r.1 r.2 e k)

  pub tpm_event_parse-IsParse :
      (ev : TpmEvent (BootEvent Bsa)) (ctx : ScanCtx)
      → Holds (IsParse ev) (tpm_event_parse convert_from_utf16le parse_efi_bsa ev ctx)
  unfolding tpm_event_parse
  tpm_event_parse-IsParse ev ctx = parse_unless-IsParse ev.parsed ev ctx refl

  -- An event that is parsed already.
  pub tpm_event_parse-parsed :
      (ev : TpmEvent (BootEvent Bsa)) (ctx : ScanCtx) (form : ParsedEvent (BootEvent Bsa))
      → ev.parsed ≡ some form
      → tpm_event_parse convert_from_utf16le parse_efi_bsa ev ctx ≡ ok (ev, ctx)
  unfolding tpm_event_parse parse_unless
  tpm_event_parse-parsed ev ctx form e =
      ap (λ o. parse_unless convert_from_utf16le parse_efi_bsa o ev ctx) e
