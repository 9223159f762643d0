-- ===== src/EventLog/Reader/Records.antt =====
-- Records of a TPM 2 event log as the firmware writes them, and what the reader makes of them.
use pcr_oracle.Common.{
  append_assoc, ℕ, ◌*◌, ◌^◌, ◌≤◌, ◌<◌, ◌≡◌, refl, ap, ◌∙◌, false, some, List, [], ◌∷◌, ◌++◌, ltb,
  ◌==◌, arith, length, drop, replicate, All, take-append, drop-append, length-append, map,
}
use pcr_oracle.Common.Bytes.{Octets}
use pcr_oracle.Common.Words.{le_octets, length-le_octets, le_value-le_octets}
use pcr_oracle.Common.Outcome.{ok}
use pcr_oracle.Digest.{TpmAlgoInfo, TpmEvdigest, evp_max_md_size, digest_by_tpm_alg}
use pcr_oracle.EventLog.Reader.{
  Tcg2Info, TpmEventLogReader, read_exactly, read_u16le, read_u32le, event_log_get_algo_info,
  event_log_read_digest, read_digest_of, or_logged, read_digests, event_log_read_pcrs_tpm2,
  event_log_read_pcrs, raw_event, read_body,
}

-- A digest with the number of its algorithm.
pub record LoggedDigest : Type 0 where
  pub algo_id : ℕ
  pub algo : TpmAlgoInfo
  pub value : Octets

-- TCG_PCR_EVENT2
pub record LogRecord : Type 0 where
  pub pcr_index : ℕ
  pub event_type : ℕ
  pub digests : List LoggedDigest
  pub event_data : Octets

pub record IsLoggedDigest (d : LoggedDigest) : Type 0 where
  pub short : d.algo_id < 2 ^ 16
  pub known : digest_by_tpm_alg d.algo_id ≡ some d.algo
  pub sized : length d.value ≡ d.algo.digest_size
  pub bounded : d.algo.digest_size ≤ evp_max_md_size

pub record IsLogRecord (r : LogRecord) : Type 0 where
  pub index_word : r.pcr_index < 2 ^ 32
  pub type_word : r.event_type < 2 ^ 32
  pub few_digests : length r.digests ≤ 32
  pub digests_ok : All IsLoggedDigest r.digests
  pub small_data : length r.event_data ≤ 1024 * 1024

unfoldable pub digest_octets : List LoggedDigest → Octets
digest_octets [] = []
digest_octets (d ∷ ds) = le_octets 2 d.algo_id ++ (d.value ++ digest_octets ds)

-- The record behind the register number.
abbrev pub body_octets : LogRecord → Octets
body_octets r =
    le_octets 4 r.event_type
    ++ (le_octets 4 (length r.digests)
        ++ (digest_octets r.digests ++ (le_octets 4 (length r.event_data) ++ r.event_data)))

abbrev pub stored_digest : LoggedDigest → TpmEvdigest
stored_digest d = record {
  algo = some d.algo;
  size = d.algo.digest_size;
  octets = d.value ++ drop d.algo.digest_size (replicate evp_max_md_size 0);
}

pub read_exactly-append :
    (n : ℕ) (bs rest : Octets) → length bs ≡ n → read_exactly n (bs ++ rest) ≡ ok (bs, rest)
unfolding read_exactly
read_exactly-append n bs rest h =
    let enough : ltb (length (bs ++ rest)) n ≡ false = ground (arith, length-append bs rest) in
    rw (enough, take-append bs rest n h, drop-append bs rest n h)

pub read_u32le-le_octets :
    (v : ℕ) (rest : Octets) → v < 2 ^ 32 → read_u32le (le_octets 4 v ++ rest) ≡ ok (v, rest)
unfolding read_u32le
read_u32le-le_octets v rest h = rw (
  read_exactly-append 4 (le_octets 4 v) rest (length-le_octets 4 v),
  le_value-le_octets 4 v (omega arith),
)

read_u16le-le_octets :
    (v : ℕ) (rest : Octets) → v < 2 ^ 16 → read_u16le (le_octets 2 v ++ rest) ≡ ok (v, rest)
unfolding read_u16le
read_u16le-le_octets v rest h = rw (
  read_exactly-append 2 (le_octets 2 v) rest (length-le_octets 2 v),
  le_value-le_octets 2 v (omega arith),
)

event_log_read_digest-value :
    (info : Tcg2Info) (d : LoggedDigest) (rest : Octets)
    → IsLoggedDigest d
    → event_log_read_digest info d.algo_id (d.value ++ rest) ≡ ok (stored_digest d, rest)
unfolding event_log_read_digest event_log_get_algo_info or_logged read_digest_of
event_log_read_digest-value info d rest h =
    let fits : ltb evp_max_md_size d.algo.digest_size ≡ false = ground (arith, h.bounded) in
    rw (h.known, read_exactly-append d.algo.digest_size d.value rest h.sized, fits)

read_digests-digest_octets :
    (info : Tcg2Info) (ds : List LoggedDigest) (rest : Octets)
    → All IsLoggedDigest ds
    → read_digests info (length ds) (digest_octets ds ++ rest) ≡ ok (map stored_digest ds, rest)
unfolding read_digests digest_octets
read_digests-digest_octets info [] rest h = refl
read_digests-digest_octets info (d ∷ ds) rest (v, vs) =
    let tail : Octets = digest_octets ds ++ rest in
    rw (
      append_assoc (le_octets 2 d.algo_id) (d.value ++ digest_octets ds) rest,
      append_assoc d.value (digest_octets ds) rest,
      read_u16le-le_octets d.algo_id (d.value ++ tail) v.short,
      event_log_read_digest-value info d tail v,
      read_digests-digest_octets info ds rest vs,
    )

body_octets-append :
    (r : LogRecord) (rest : Octets)
    → body_octets r ++ rest
      ≡ le_octets 4 r.event_type
        ++ (le_octets 4 (length r.digests)
            ++ (digest_octets r.digests
                ++ (le_octets 4 (length r.event_data) ++ (r.event_data ++ rest))))
body_octets-append r rest =
    let size : Octets = le_octets 4 (length r.event_data) in
    let count : Octets = le_octets 4 (length r.digests) in
    let ds : Octets = digest_octets r.digests in
    append_assoc (le_octets 4 r.event_type) (count ++ (ds ++ (size ++ r.event_data))) rest
    ∙ ap (λ t. le_octets 4 r.event_type ++ t)
        (append_assoc count (ds ++ (size ++ r.event_data)) rest
          ∙ ap (λ t. count ++ t)
              (append_assoc ds (size ++ r.event_data) rest
                ∙ ap (λ t. ds ++ t) (append_assoc size r.event_data rest)))

-- A record of a TPM 2 log, with at most 32 digests of algorithms that the program knows and at most a
-- mebibyte of data, is read back field by field, with what stands behind it left over.
pub read_body-body_octets :
    {Other : Type 0} (log : TpmEventLogReader) (r : LogRecord) (rest : Octets)
    → (log.tpm_version == 1) ≡ false
    → IsLogRecord r
    → read_body {Other = Other} log r.pcr_index (body_octets r ++ rest)
      ≡ ok (
        raw_event log.event_count r.pcr_index r.event_type
            (map stored_digest r.digests)
            r.event_data,
        rest,
      )
unfolding read_body event_log_read_pcrs event_log_read_pcrs_tpm2
read_body-body_octets log r rest v h =
    let few : ltb 32 (length r.digests) ≡ false = ground (arith, h.few_digests) in
    let small : ltb (1024 * 1024) (length r.event_data) ≡ false = ground (arith, h.small_data) in
    let data_rest : Octets = r.event_data ++ rest in
    let sized : Octets = le_octets 4 (length r.event_data) ++ data_rest in
    let digests : Octets = digest_octets r.digests ++ sized in
    rw (
      body_octets-append r rest,
      read_u32le-le_octets r.event_type (le_octets 4 (length r.digests) ++ digests) h.type_word,
      v,
      read_u32le-le_octets (length r.digests) digests (omega (arith, h.few_digests)),
      few,
      read_digests-digest_octets log.tcg2_info r.digests sized h.digests_ok,
      read_u32le-le_octets (length r.event_data) data_rest (omega (arith, h.small_data)),
      small,
      read_exactly-append (length r.event_data) r.event_data rest refl,
    )
