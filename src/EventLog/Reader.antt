-- ===== src/EventLog/Reader.antt =====
-- The event log reader of src/eventlog.c: from the bytes of the log to events.
pub mod Records
pub mod Consumption
use pcr_oracle.Common.{
  ℕ, zero, suc, ◌+◌, ◌*◌, ◌/◌, ◌%◌, Bool, true, false, not, ◌&&◌, ◌||◌, Option, none, some, List,
  [], ◌∷◌, ◌++◌, ltb, ◌==◌, if◌then◌else◌, length, take, drop, replicate, get_or,
}
use pcr_oracle.Common.Bytes.{Octets, CString, codes, octets_eq}
use pcr_oracle.Common.Words.{le_value}
use pcr_oracle.Common.Outcome.{Outcome, ok, fatal, undefined, ◌>>=◌, ◌>>◌, fatal_if, defined_if}
use pcr_oracle.Buffer.{
  Buffer, buffer_init_read, buffer_skip, buffer_get_u8, buffer_get_u16le, buffer_get_u32le,
}
use pcr_oracle.Digest.{
  TpmAlgoInfo, TpmEvdigest, evp_max_md_size, digest_by_tpm_alg, digest_by_tpm_alg_in, log_table,
  empty_entry, zero_digest,
}
use pcr_oracle.EventLog.{TpmEvent, parse_none, event_no_action}

abbrev pub tpm_event_log_max_algos : ℕ
tpm_event_log_max_algos = 64

pub record Tcg2Info : Type 0 where
  pub platform_class : ℕ
  pub spec_version_major : ℕ
  pub spec_version_minor : ℕ
  pub spec_errata : ℕ
  pub uintn_size : ℕ
  -- by the slot
  pub algorithms : ℕ → TpmAlgoInfo

-- `input` is what is left of the file behind `fd`; `pcr0_locality` is there if it is valid.
pub record TpmEventLogReader : Type 0 where
  pub input : Octets
  pub tpm_version : ℕ
  pub event_count : ℕ
  pub tcg2_info : Tcg2Info
  pub pcr0_locality : Option ℕ

-- `event_log_open` on a file of these bytes.
unfoldable pub event_log_open : Octets → TpmEventLogReader
event_log_open file = record {
  input = file;
  tpm_version = 1;
  event_count = 0;
  tcg2_info = record {
    platform_class = 0;
    spec_version_major = 0;
    spec_version_minor = 0;
    spec_errata = 0;
    uintn_size = 0;
    algorithms = empty_entry log_table;
  };
  pcr0_locality = none;
}

-- `__read_exactly` on a file: read() gives what is left if that is less.
unfoldable pub read_exactly : ℕ → Octets → Outcome (Octets × Octets)
read_exactly len input = do fatal_if (ltb (length input) len); ok (take len input, drop len input)

unfoldable pub read_u32le : Octets → Outcome (ℕ × Octets)
read_u32le input = do (bs, rest) ← read_exactly 4 input; ok (le_value bs, rest)

unfoldable pub read_u16le : Octets → Outcome (ℕ × Octets)
read_u16le input = do (bs, rest) ← read_exactly 2 input; ok (le_value bs, rest)

-- `none` is the end of the file.
unfoldable pub read_u32le_or_eof : Octets → Outcome (Option ℕ × Octets)
read_u32le_or_eof [] = ok (none, [])
read_u32le_or_eof (b ∷ input) = do (v, rest) ← read_u32le (b ∷ input); ok (some v, rest)

-- `if (!(algo = digest_by_tpm_alg(algo_id)))` and the second search.
or_logged : Option TpmAlgoInfo → Tcg2Info → ℕ → Option TpmAlgoInfo
or_logged none info algo_id = digest_by_tpm_alg_in algo_id info.algorithms tpm_event_log_max_algos
or_logged (some algo) info algo_id = some algo

unfoldable pub event_log_get_algo_info : Tcg2Info → ℕ → Option TpmAlgoInfo
unfolding or_logged
event_log_get_algo_info info algo_id = or_logged (digest_by_tpm_alg algo_id) info algo_id

-- read() stores what the file has of the digest, which may be more than `data` has room for.
read_digest_of : Option TpmAlgoInfo → Octets → Outcome (TpmEvdigest × Octets)
read_digest_of none input = fatal
read_digest_of (some algo) input = do
  defined_if (not (ltb evp_max_md_size algo.digest_size && ltb evp_max_md_size (length input)))
  (bs, rest) ← read_exactly algo.digest_size input
  ok (
    record {
      algo = some algo;
      size = algo.digest_size;
      octets = bs ++ drop algo.digest_size (replicate evp_max_md_size 0);
    },
    rest,
  )

unfoldable pub event_log_read_digest : Tcg2Info → ℕ → Octets → Outcome (TpmEvdigest × Octets)
unfolding read_digest_of
event_log_read_digest info tpm_hash_algo_id input =
    read_digest_of (event_log_get_algo_info info tpm_hash_algo_id) input

-- The loop of `event_log_read_pcrs_tpm2`.
unfoldable pub read_digests : Tcg2Info → ℕ → Octets → Outcome (List TpmEvdigest × Octets)
read_digests info zero input = ok ([], input)
read_digests info (suc n) input = do
  (algo_id, rest) ← read_u16le input
  (md, rest') ← event_log_read_digest info algo_id rest
  (mds, rest'') ← read_digests info n rest'
  ok (md ∷ mds, rest'')

-- `event_log_resize_pcrs` refuses more than 32.
unfoldable pub event_log_read_pcrs_tpm2 : Tcg2Info → Octets → Outcome (List TpmEvdigest × Octets)
event_log_read_pcrs_tpm2 info input = do
  (count, rest) ← read_u32le input
  fatal_if (ltb 32 count)
  read_digests info count rest

unfoldable pub event_log_read_pcrs_tpm1 : Tcg2Info → Octets → Outcome (List TpmEvdigest × Octets)
event_log_read_pcrs_tpm1 info input = do
  (md, rest) ← event_log_read_digest info 4 input
  ok (md ∷ [], rest)

unfoldable pub event_log_read_pcrs :
    TpmEventLogReader → Octets → Outcome (List TpmEvdigest × Octets)
event_log_read_pcrs log input =
    if log.tpm_version == 1
    then event_log_read_pcrs_tpm1 log.tcg2_info input
    else event_log_read_pcrs_tpm2 log.tcg2_info input

-- An event of the log with nothing parsed or predicted.
abbrev pub raw_event : {Other : Type 0} → ℕ → ℕ → ℕ → List TpmEvdigest → Octets → TpmEvent Other
raw_event index pcr_index event_type pcrs event_data = record {
  event_index = index;
  parsed = none;
  pcr_index = pcr_index;
  event_type = event_type;
  pcr_values = pcrs;
  event_data = event_data;
  rehash_strategy = parse_none;
  predicted_digest = zero_digest;
}

-- The fields of one record from the register on, up to `__read_exactly` of the data.
unfoldable pub read_body :
    {Other : Type 0} → TpmEventLogReader → ℕ → Octets → Outcome (TpmEvent Other × Octets)
read_body log pcr_index input = do
  (event_type, rest) ← read_u32le input
  (pcrs, rest') ← event_log_read_pcrs log rest
  (event_size, rest'') ← read_u32le rest'
  fatal_if (ltb (1024 * 1024) event_size)
  (event_data, rest''') ← read_exactly event_size rest''
  ok (raw_event log.event_count pcr_index event_type pcrs event_data, rest''')
