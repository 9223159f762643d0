-- ===== src/Predictor/Update.antt =====
-- `predictor_update_eventlog` of src/oracle.c: the loop that replays the event log into the bank.
use pcr_oracle.Common.{
  ℕ, ◌+◌, Bool, true, false, not, ◌&&◌, Option, none, some, List, [], ◌∷◌, ◌==◌, if◌then◌else◌,
}
use pcr_oracle.Common.Outcome.{Outcome, ok, fatal, ◌>>=◌}
use pcr_oracle.Digest.{TpmAlgoInfo, TpmEvdigest}
use pcr_oracle.Digest.Openssl.{Evp}
use pcr_oracle.Pcr.{TpmPcrBank, pcr_bank_get_register}
use pcr_oracle.EventLog.{
  TpmEvent, ParsedEvent, Strategy, parse_none, parse_rehash, copy, no_action, tpm_event_get_digest,
  efi_gpt_event, efi_boot_services_application,
}
use pcr_oracle.Predictor.Extend.{pcr_bank_extend_register}

-- What the loop calls on an event, with the later events of the log where the callee looks ahead:
-- `__predictor_lookahead_efi_partition` (the event's parsed form afterwards),
-- `__predictor_lookahead_shim_loaded` and `tpm_parsed_event_rehash`. `Ctx` is
-- `tpm_event_log_rehash_ctx_t`; a `none` of `rehash` is NULL.
pub record RehashOps (Other : Type 0) (Ctx : Type 0) : Type 0 where
  pub lookahead_efi_partition :
      TpmEvent Other → List (TpmEvent Other) → Outcome (Option (ParsedEvent Other))
  pub lookahead_shim_loaded : TpmEvent Other → List (TpmEvent Other) → Ctx → Ctx
  pub rehash : TpmEvent Other → Ctx → Outcome (Option TpmEvdigest × Ctx)

-- `stop_event` as the position of the event in the log, and `stop_event.after`.
pub record StopAt : Type 0 where
  pub position : Option ℕ
  pub after : Bool

abbrev pub stops_at : StopAt → ℕ → Bool
stops_at stop i = elim stop.position [ none ↦ false | some k ↦ k == i ]

-- A digest that must be there: "Event log lacks a hash for digest algorithm".
abbrev pub required : Option TpmEvdigest → Outcome TpmEvdigest
required none = fatal
required (some md) = ok md

-- The new digest, or the old one and `okay = false` where re-hashing failed.
abbrev pub chosen : Option TpmEvdigest → TpmEvdigest → TpmEvdigest × Bool
chosen none old_digest = (old_digest, false)
chosen (some new_digest) old_digest = (new_digest, true)

-- What one event leaves: the event, the context, the bank and `okay`.
pub record Step (Other Ctx : Type 0) : Type 0 where
  pub event : TpmEvent Other
  pub ctx : Ctx
  pub bank : TpmPcrBank
  pub okay : Bool

module _ (evp : Evp) {Other Ctx : Type 0} (ops : RehashOps Other Ctx)
    (algo_info : TpmAlgoInfo) where
  -- `switch (ev->rehash_strategy)`. `none` is the jump to `no_action`; otherwise the new digest.
  unfoldable pub select_digest :
      Strategy → TpmEvent Other → TpmEvdigest → Ctx → Outcome (Option (Option TpmEvdigest) × Ctx)
  select_digest parse_rehash ev old_digest ctx = do
    (new_digest, ctx') ← ops.rehash ev ctx
    ok (some new_digest, ctx')
  select_digest copy ev old_digest ctx = ok (some (some old_digest), ctx)
  select_digest no_action ev old_digest ctx = ok (none, ctx)
  select_digest parse_none ev old_digest ctx = ok (some (some old_digest), ctx)

  -- The extend, and the copy into `ev->predicted_digest`.
  unfoldable pub extend_event :
      TpmEvent Other
      → Ctx
      → TpmPcrBank
      → TpmEvdigest
      → Option (Option TpmEvdigest)
      → Outcome (Step Other Ctx)
  extend_event ev ctx bank old_digest none =
      ok (record { event = ev; ctx = ctx; bank = bank; okay = true })
  extend_event ev ctx bank old_digest (some new_digest) =
      let (md, okay) = chosen new_digest old_digest in
      do
        bank' ← pcr_bank_extend_register evp bank ev.pcr_index md
        ok (record {
          event = record ev { predicted_digest = md };
          ctx = ctx;
          bank = bank';
          okay = okay;
        })

  -- The two lookaheads, by the type of the event.
  unfoldable pub looked_ahead : TpmEvent Other → List (TpmEvent Other) → Outcome (TpmEvent Other)
  looked_ahead ev rest =
      if ev.event_type == efi_gpt_event
      then (do parsed ← ops.lookahead_efi_partition ev rest; ok (record ev { parsed = parsed }))
      else ok ev

  unfoldable pub next_stage : TpmEvent Other → List (TpmEvent Other) → Ctx → Ctx
  next_stage ev rest ctx =
      if ev.event_type == efi_boot_services_application
      then ops.lookahead_shim_loaded ev rest ctx
      else ctx

  -- The body of `if (pcr != NULL)`.
  unfoldable pub hash_event :
      TpmEvent Other → List (TpmEvent Other) → Ctx → TpmPcrBank → Outcome (Step Other Ctx)
  hash_event ev rest ctx bank = do
    old_digest ← required (tpm_event_get_digest ev algo_info)
    ev' ← looked_ahead ev rest
    (new_digest, ctx') ← select_digest ev'.rehash_strategy ev' old_digest (next_stage ev' rest ctx)
    extend_event ev' ctx' bank old_digest new_digest

  -- One round of the loop up to the label `no_action`, on an event and those behind it.
  unfoldable pub process_event :
      TpmEvent Other → List (TpmEvent Other) → Ctx → TpmPcrBank → Outcome (Step Other Ctx)
  process_event ev rest ctx bank = do
    pcr ← pcr_bank_get_register bank ev.pcr_index none
    elim pcr [
      | none ↦ ok (record { event = ev; ctx = ctx; bank = bank; okay = true })
      | some r ↦ hash_event ev rest ctx bank
    ]

  -- The loop from position `i` on: the events with what was predicted for them, the bank, and `okay`.
  unfoldable pub update_events :
      StopAt
      → List (TpmEvent Other)
      → ℕ
      → Ctx
      → TpmPcrBank
      → Bool
      → Outcome (List (TpmEvent Other) × TpmPcrBank × Bool)
  update_events stop [] i ctx bank okay = ok ([], bank, okay)
  update_events stop (ev ∷ rest) i ctx bank okay =
      if stops_at stop i && not stop.after then ok (ev ∷ rest, bank, okay) else do
        s ← process_event ev rest ctx bank
        if stops_at stop i then ok (s.event ∷ rest, s.bank, okay && s.okay) else do
          (rest', bank', okay') ← update_events stop rest (i + 1) s.ctx s.bank (okay && s.okay)
          ok (s.event ∷ rest', bank', okay')
