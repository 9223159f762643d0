-- ===== src/EventLog/ReadNext.antt =====
-- `event_log_read_next` of src/eventlog.c with its two magic events, and the loop of
-- `predictor_load_eventlog` of src/oracle.c that reads the whole log.
pub mod Logs
pub mod Termination
use pcr_oracle.Common.{
  ℕ, zero, suc, ◌+◌, ◌/◌, ◌%◌, Bool, true, false, not, ◌&&◌, Option, none, some, List, [], ◌∷◌,
  ◌++◌, ltb, ◌==◌, if◌then◌else◌, length, take, get_or,
}
use pcr_oracle.Common.Bytes.{Octets, CString, codes, octets_eq}
use pcr_oracle.Common.Words.{u32_mod}
use pcr_oracle.Common.Outcome.{Outcome, ok, fatal, undefined, ◌>>=◌, ◌>>◌, fatal_if, defined_if}
use pcr_oracle.Buffer.{
  Buffer, buffer_init_read, buffer_skip, buffer_get_u8, buffer_get_u16le, buffer_get_u32le,
}
use pcr_oracle.Digest.{TpmAlgoInfo, digest_by_tpm_alg}
use pcr_oracle.EventLog.{TpmEvent, event_no_action}
use pcr_oracle.EventLog.Reader.{
  Tcg2Info, TpmEventLogReader, tpm_event_log_max_algos, event_log_open, read_u32le_or_eof,
  read_body,
}

-- `if (!get(...)) return false;` in front of the rest.
abbrev or_false : {A B : Type 0} → Option A → (A → Outcome (Option B)) → Outcome (Option B)
or_false none rest = ok none
or_false (some a) rest = rest a

-- sprintf("%u"), on numbers of at most `places` digits.
decimal : ℕ → ℕ → CString
decimal zero v = []
decimal (suc places) v =
    let front = decimal places (v / 10) in
    if ltb v 10 then (b'0' + v) ∷ [] else front ++ ((b'0' + v % 10) ∷ [])

-- An algorithm that the program does not know. A 16-bit number has at most five digits.
fake_algo : ℕ → ℕ → TpmAlgoInfo → TpmAlgoInfo
unfolding decimal
fake_algo algo_id algo_size old = record old {
  digest_size = algo_size;
  openssl_name = some (codes "TPM2_ALG_" ++ decimal 5 algo_id);
}

store_algo : ℕ → ℕ → Tcg2Info → Tcg2Info
unfolding fake_algo
store_algo algo_id algo_size info = record info {
  algorithms = λ slot.
      if slot == algo_id
      then fake_algo algo_id algo_size (info.algorithms slot)
      else info.algorithms slot;
}

-- `TPM2_ALG_LAST` is a constant of the TSS library, a parameter here.
module _ (tpm2_alg_last : ℕ) where
  -- One algorithm of the header; a size that conflicts with the known one is only reported.
  note_algo : ℕ → ℕ → Tcg2Info → Outcome Tcg2Info
  unfolding store_algo
  note_algo algo_id algo_size info =
      if ltb tpm2_alg_last algo_id then ok info else elim (digest_by_tpm_alg algo_id) [
        | none ↦ do
          defined_if (ltb algo_id tpm_event_log_max_algos)
          ok (store_algo algo_id algo_size info)
        | some wk ↦ ok info
      ]

  parse_algos : ℕ → Buffer → Tcg2Info → Outcome (Option Tcg2Info)
  unfolding note_algo
  parse_algos zero buf info = ok (some info)
  parse_algos (suc n) buf info = or_false (buffer_get_u16le buf) λ (algo_id, buf1).
      or_false (buffer_get_u16le buf1)
        λ (algo_size, buf2). note_algo algo_id algo_size info >>= λ info'. parse_algos n buf2 info'

  -- The header fields and the count; `none` is `false`.
  unfoldable pub tpm_event_parse_tcg2_info : Octets → Tcg2Info → Outcome (Option Tcg2Info)
  unfolding parse_algos
  tpm_event_parse_tcg2_info event_data info =
      let buf = buffer_init_read event_data (length event_data) in
      let buf0 : Buffer = elim (buffer_skip buf 16) [ none ↦ buf | some b ↦ b ] in
      or_false (buffer_get_u32le buf0) λ (platform_class, buf1).
        or_false (buffer_get_u8 buf1) λ (minor, buf2).
          or_false (buffer_get_u8 buf2) λ (major, buf3).
            or_false (buffer_get_u8 buf3) λ (errata, buf4).
              or_false (buffer_get_u8 buf4) λ (uintn_size, buf5).
                or_false (buffer_get_u32le buf5) λ (count, buf6).
                  parse_algos count buf6 (record info {
                    platform_class = platform_class;
                    spec_version_minor = minor;
                    spec_version_major = major;
                    spec_errata = errata;
                    uintn_size = uintn_size;
                  })

-- strncmp(signature, "Spec ID Event03", 16) and memcmp(signature, "StartupLocality", 16): with the NUL.
is_spec_id : Octets → Bool
unfolding octets_eq
is_spec_id event_data = octets_eq (take 16 event_data) (codes "Spec ID Event03" ++ (0 ∷ []))

is_startup_locality : Octets → Bool
unfolding octets_eq
is_startup_locality event_data =
    octets_eq (take 16 event_data) (codes "StartupLocality" ++ (0 ∷ [])) && length event_data == 17

abbrev pub is_magic : {Other : Type 0} → TpmEventLogReader → TpmEvent Other → Bool
is_magic log ev =
    (ev.event_type == event_no_action && ev.pcr_index == 0)
    && (log.event_count == 0 && not (ltb (length ev.event_data) 16))

-- One round from the label `again`: the end of the log, a magic event, or an event to return.
pub data Pass (Other : Type 0) : Type 0 where
  end_of_log : TpmEventLogReader → Pass Other
  again : TpmEventLogReader → Pass Other
  event : TpmEvent Other → TpmEventLogReader → Pass Other

-- `event_count` is an unsigned int.
abbrev pub counted : TpmEventLogReader → TpmEventLogReader
counted log = record log { event_count = (log.event_count + 1) % u32_mod }

with_info : {Other : Type 0} → TpmEventLogReader → Option Tcg2Info → Outcome (Pass Other)
with_info log none = fatal
with_info log (some info) =
    ok (again (record log { tcg2_info = info; tpm_version = info.spec_version_major }))

abbrev pub Loaded : Type 0 → Type 0
Loaded Other = Outcome (List (TpmEvent Other) × TpmEventLogReader)

module _ (tpm2_alg_last : ℕ) {Other : Type 0} where
  -- What happens to a record that was read; `log` stands behind it.
  unfoldable pub finish_record : TpmEventLogReader → TpmEvent Other → Outcome (Pass Other)
  unfolding is_spec_id is_startup_locality with_info
  finish_record log ev =
      if not (is_magic log ev)
      then ok (event ev (counted log))
      else if is_spec_id ev.event_data
      then tpm_event_parse_tcg2_info tpm2_alg_last ev.event_data log.tcg2_info >>= with_info log
      else if is_startup_locality ev.event_data
      then ok (again (record log { pcr0_locality = some (get_or ev.event_data 16 0) }))
      else ok (event ev (counted log))

  unfoldable pub read_record : TpmEventLogReader → Outcome (Pass Other)
  read_record log = do
    (pcr_index, rest) ← read_u32le_or_eof log.input
    elim pcr_index [
      | none ↦ ok (end_of_log log)
      | some i ↦ do
        (ev, rest') ← read_body log i rest
        finish_record (record log { input = rest' }) ev
    ]

  prepend : TpmEvent Other → Option (Loaded Other) → Option (Loaded Other)
  prepend ev none = none
  prepend ev (some r) = some (r >>= λ (evs, log). ok (ev ∷ evs, log))

  after_record :
      Outcome (Pass Other) → (TpmEventLogReader → Option (Loaded Other)) → Option (Loaded Other)
  unfolding prepend
  after_record (ok (end_of_log log)) next = some (ok ([], log))
  after_record (ok (again log)) next = next log
  after_record (ok (event ev log)) next = prepend ev (next log)
  after_record fatal next = some fatal
  after_record undefined next = some undefined

  -- The loop of `predictor_load_eventlog`, a round of `event_log_read_next` at a time, with at most
  -- `rounds` rounds; `none` is a loop that has not ended by then.
  unfoldable pub load_events : ℕ → TpmEventLogReader → Option (Loaded Other)
  unfolding after_record
  load_events zero log = none
  load_events (suc rounds) log = after_record (read_record log) (λ log'. load_events rounds log')
