-- ===== src/Predictor/Parsing.antt =====
-- `tpm_event_parse` of src/eventlog.c as the parser of the pre-scan of src/oracle.c.
use pcr_oracle.Common.{ℕ, ◌≡◌, true, Option, some, Option-cases, inl, inr, arith}
use mathlib.Core.Path.{subst}
use pcr_oracle.Common.Bytes.{Octets}
use pcr_oracle.Common.Outcome.{Outcome, ok, Holds}
use pcr_oracle.Buffer.{Buffer}
use pcr_oracle.EventLog.{TpmEvent, ParsedEvent}
use pcr_oracle.EventLog.Forms.{BootEvent}
use pcr_oracle.EventLog.Parse.{tpm_event_parse}
use pcr_oracle.EventLog.Parse.Kept.{IsParse, tpm_event_parse-IsParse, tpm_event_parse-parsed}
use pcr_oracle.Predictor.Prescan.{KeepsEvents, is_parsed}

module _ {Bsa ScanCtx : Type 0} (convert_from_utf16le : ℕ → Octets → Option Octets)
    (parse_efi_bsa : TpmEvent (BootEvent Bsa)
      → Buffer
      → ScanCtx
      → Outcome (Option Bsa × ScanCtx)) where
  result-IsParse :
      (ev : TpmEvent (BootEvent Bsa)) (ctx : ScanCtx) {ev' : TpmEvent (BootEvent Bsa)}
      {ctx' : ScanCtx}
      → tpm_event_parse convert_from_utf16le parse_efi_bsa ev ctx ≡ ok (ev', ctx')
      → IsParse convert_from_utf16le parse_efi_bsa ev (ev', ctx')
  result-IsParse ev ctx h =
      subst (Holds (IsParse convert_from_utf16le parse_efi_bsa ev)) h
        (tpm_event_parse-IsParse convert_from_utf16le parse_efi_bsa ev ctx)

  parsed_stays :
      (ev ev' : TpmEvent (BootEvent Bsa))
      → ((p : _) → ev.parsed ≡ some p → ev'.parsed ≡ some p)
      → is_parsed ev ≡ true
      → is_parsed ev' ≡ true
  parsed_stays ev ev' stays h = elim (Option-cases ev.parsed) [
    | inl e ↦ ground (arith, e, h)
    | inr (p, e) ↦ ground (arith, stays p e)
  ]

  -- The parser of events keeps the register of an event and a parsed form, and changes its strategy to
  -- `copy` at most, whatever iconv() and the parser of boot services events do; and an event that is
  -- parsed already is left as it is, with the context, so that it is not parsed a second time.
  pub tpm_event_parse-KeepsEvents :
      KeepsEvents (tpm_event_parse convert_from_utf16le parse_efi_bsa)
      × ((ev : TpmEvent (BootEvent Bsa)) (ctx : ScanCtx) (form : ParsedEvent (BootEvent Bsa))
          → ev.parsed ≡ some form
          → tpm_event_parse convert_from_utf16le parse_efi_bsa ev ctx ≡ ok (ev, ctx))
  tpm_event_parse-KeepsEvents = (
    record {
      same_index = λ ev ctx h. (result-IsParse ev ctx h).0;
      same_strategy = λ ev ctx h. (result-IsParse ev ctx h).1;
      keeps_parsed = λ ev ctx {ev'} h. parsed_stays ev ev' (result-IsParse ev ctx h).2;
    },
    tpm_event_parse-parsed convert_from_utf16le parse_efi_bsa,
  )
