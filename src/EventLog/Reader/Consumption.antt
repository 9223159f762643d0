-- ===== src/EventLog/Reader/Consumption.antt =====
-- How many bytes are left behind each read of src/eventlog.c.
use pcr_oracle.Common.{
  ℕ, zero, suc, ◌*◌, ◌≤◌, not, ◌&&◌, Option, none, some, ltb, ◌==◌, arith, length, take, drop,
  length-drop, Bool-cases, inl, inr,
}
use pcr_oracle.Common.Bytes.{Octets}
use pcr_oracle.Common.Outcome.{
  Outcome, ok, ◌>>=◌, Holds, Holds->>=, Holds-fatal_if, Holds-defined_if,
}
use pcr_oracle.Digest.{TpmAlgoInfo, evp_max_md_size}
use pcr_oracle.EventLog.Reader.{
  Tcg2Info, TpmEventLogReader, read_exactly, read_u16le, read_u32le, event_log_get_algo_info,
  event_log_read_digest, read_digest_of, read_digests, event_log_read_pcrs_tpm2,
  event_log_read_pcrs_tpm1, event_log_read_pcrs, read_body,
}

-- At most `n` bytes are left.
abbrev pub Left {ℓ} : {A : Type ℓ} → ℕ → A × Octets → Type 0
Left n r = length r.1 ≤ n

abbrev pub Within {ℓ} : {A : Type ℓ} → ℕ → Outcome (A × Octets) → Type 0
Within n o = Holds (Left n) o

-- A read, and what follows on the rest.
pub then_Within {ℓ κ} :
    {A : Type ℓ} {B : Type κ} (n : ℕ) (first : Outcome (A × Octets))
    (next : A × Octets → Outcome (B × Octets))
    → Within n first
    → ((a : A) (rest : Octets) → length rest ≤ n → Within n (next (a, rest)))
    → Within n (first >>= next)
then_Within n first next h k = Holds->>= (Left n) (Left n) first next h (λ r p. k r.0 r.1 p)

pub read_exactly-Within :
    (n k : ℕ) (input : Octets) → length input ≤ n → Within n (read_exactly k input)
unfolding read_exactly
read_exactly-Within n k input h =
    Holds-fatal_if (Left n) (ltb (length input) k) (ok (take k input, drop k input))
      (omega (arith, length-drop {A = ℕ} k input))

pub read_u32le-Within : (n : ℕ) (input : Octets) → length input ≤ n → Within n (read_u32le input)
unfolding read_u32le
read_u32le-Within n input h =
    then_Within n (read_exactly 4 input) _ (read_exactly-Within n 4 input h) (λ bs rest p. p)

pub read_u16le-Within : (n : ℕ) (input : Octets) → length input ≤ n → Within n (read_u16le input)
unfolding read_u16le
read_u16le-Within n input h =
    then_Within n (read_exactly 2 input) _ (read_exactly-Within n 2 input h) (λ bs rest p. p)

read_digest_of-Within :
    (n : ℕ) (algo : Option TpmAlgoInfo) (input : Octets)
    → length input ≤ n
    → Within n (read_digest_of algo input)
unfolding read_digest_of
read_digest_of-Within n none input h = tt
read_digest_of-Within n (some algo) input h =
    Holds-defined_if (Left n)
      (not (ltb evp_max_md_size algo.digest_size && ltb evp_max_md_size (length input))) _
      (then_Within n (read_exactly algo.digest_size input) _
        (read_exactly-Within n algo.digest_size input h) (λ bs rest p. p))

event_log_read_digest-Within :
    (n : ℕ) (info : Tcg2Info) (id : ℕ) (input : Octets)
    → length input ≤ n
    → Within n (event_log_read_digest info id input)
unfolding event_log_read_digest
event_log_read_digest-Within n info id input h =
    read_digest_of-Within n (event_log_get_algo_info info id) input h

pub read_digests-Within :
    (n : ℕ) (info : Tcg2Info) (count : ℕ) (input : Octets)
    → length input ≤ n
    → Within n (read_digests info count input)
unfolding read_digests
read_digests-Within n info zero input h = h
read_digests-Within n info (suc count) input h =
    then_Within n (read_u16le input) _ (read_u16le-Within n input h) λ id rest p.
      then_Within n (event_log_read_digest info id rest) _
        (event_log_read_digest-Within n info id rest p)
        λ md rest' p'.
          then_Within n (read_digests info count rest') _
            (read_digests-Within n info count rest' p') (λ mds rest'' p''. p'')

event_log_read_pcrs-Within :
    (n : ℕ) (log : TpmEventLogReader) (input : Octets)
    → length input ≤ n
    → Within n (event_log_read_pcrs log input)
unfolding event_log_read_pcrs event_log_read_pcrs_tpm1 event_log_read_pcrs_tpm2
event_log_read_pcrs-Within n log input h = elim (Bool-cases (log.tpm_version == 1)) [
  | inl e ↦ rw e (
      then_Within n (event_log_read_digest log.tcg2_info 4 input) _
        (event_log_read_digest-Within n log.tcg2_info 4 input h) (λ md rest p. p))
  | inr e ↦ rw e (
      then_Within n (read_u32le input) _ (read_u32le-Within n input h) (λ count rest p.
        Holds-fatal_if (Left n) (ltb 32 count) (read_digests log.tcg2_info count rest)
          (read_digests-Within n log.tcg2_info count rest p)))
]

pub read_body-Within :
    (Other : Type 0) (n : ℕ) (log : TpmEventLogReader) (i : ℕ) (input : Octets)
    → length input ≤ n
    → Within n (read_body {Other = Other} log i input)
unfolding read_body
read_body-Within Other n log i input h =
    then_Within n (read_u32le input) _ (read_u32le-Within n input h) λ t rest p.
      then_Within n (event_log_read_pcrs log rest) _ (event_log_read_pcrs-Within n log rest p)
        λ pcrs rest' p'.
          then_Within n (read_u32le rest') _ (read_u32le-Within n rest' p') λ size rest'' p''.
            Holds-fatal_if (Left n) (ltb (1024 * 1024) size) _ (
              then_Within n (read_exactly size rest'') _ (read_exactly-Within n size rest'' p'')
                (λ bs rest3 p3. p3))
