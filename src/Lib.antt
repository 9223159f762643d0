-- ===== src/Lib.antt =====
-- pcr-oracle predicts the values of the TPM's platform configuration registers (PCRs) at the next
-- boot. It reads the event log of the last boot, hashes anew what each event measured, with the files
-- that the running system has now, and replays the log into a bank of predicted values.
--
-- Parts, and the files of the repository that they stand for:
--   Buffer      src/bufparser.h: a byte buffer with a read and a write position. Each function has the
--               name of the C function; `none` is the result `false`.
--   Digest      src/digest.h, src/digest.c: algorithms, digest values, digest contexts.
--   Pcr         src/pcr.h, src/pcr.c: the bank of 24 registers with its two masks.
--   Util        src/util.c: octet strings (Hex), digests (Digests), PCR masks (Masks), paths (Paths), parsed_version_compare (Versions).
--   Uapi        src/uapi.h: a boot entry.
--   SdBoot      src/sd-boot.c: is_valid_entry_token and its callers.
--   Runtime     src/runtime.c, src/digest.c: the digests of files, over what the system gives.
--   Authenticode src/authenticode.c: the areas of an image that are hashed, and the holes in them.
--               Punch, Ranges, Selected and Digests hold the proofs. Pecoff and Pecoff.Headers:
--               pecoff_inspect and what it calls, with the proofs in Inspected and Covered.
--   EventLog    src/eventlog.h, src/eventlog.c: an event, its digests and its parsed form. Forms: the
--               other members of the union. Grub, Shim (src/shim.c) and Parse: tpm_event_parse and the
--               parsers of the single kinds of events. Variable: src/efi-variable.c, with proofs about its
--               parser in Layout, about the building of an event in Overflow. Rehash:
--               tpm_parsed_event_rehash and the functions behind it. Reader:
--               __read_exactly up to event_log_read_pcrs_tpm2 and the fields of one record. ReadNext:
--               event_log_read_next, __tpm_event_parse_tcg2_info, and the loop of
--               predictor_load_eventlog of src/oracle.c. Reader.Records and ReadNext.Logs say how a
--               firmware writes a log. Gpt: src/efi-gpt.c, the event of a partition table.
--   Predictor   src/oracle.c. StopEvent: __stop_event_parse, predictor_set_stop_event and
--               __check_stop_event. Strategy: predictor_get_event_strategy. Prescan:
--               predictor_pre_scan_eventlog. Update: predictor_update_eventlog. Extend:
--               pcr_bank_extend_register. Stopping, Round, Round.Steps and Replay
--               hold the proofs about Update. Parsing:
--               tpm_event_parse as the parser of Prescan. Compare: compare_events and
--               predictor_compare. Verify:
--               predictor_verify and pcr_bank_load_initial_values, whose readers of the TPM and of a
--               snapshot are arguments.
--   Common      the shared notation, bits, bytes, machine words, lists, and `Outcome`.
--
-- The predictor gives each event its strategy and finds the stop event (Prescan), then takes the events
-- in order (Update): it asks the bank for the register (Pcr), finds the logged digest (EventLog),
-- re-hashes or copies it, and extends the register by it (Extend, which uses the contexts of Digest).
--
-- `Outcome` says how a C call ends: `ok`, `fatal` (the process ends) or `undefined` (C gives the run no
-- meaning: an access past an array, a shift by 32 or more, a NULL for a %s). A pointer into an array is an index.
-- Machine words are natural numbers with their wrap-around written out; `size_t` has 64 bits and
-- `unsigned int` has 32. Loops over lists and over the registers are structural recursion. Only
-- `load_events`, `parse_items` and `punch` have a bound on their rounds: a round of the first two takes
-- bytes of the log or of the text, and `none` says that the loop has not ended by then; a round of
-- `punch` takes a slot of an array of 64, and a slot behind the last one is an access past it.
--
-- Parameters: OpenSSL's EVP functions are the record `Evp`, with the documented laws `IsStreaming`;
-- qsort() is an argument with the laws `IsSort`, and iconv() and malloc() are arguments. The block
-- device is the record `BlockDev`. The files, EFI variables and entry tokens of the running system
-- are the record `System`. In Update, the lookaheads and the re-hashing of one event are the record
-- `RehashOps`. In Prescan the parser of one event is an argument, with what is relied on as
-- `KeepsEvents`, which Parsing fills by tpm_event_parse; that has the parse of boot services events
-- as an argument, and tpm_parsed_event_rehash has the re-hash of the EFI events as one. In ReadNext
-- the constant TPM2_ALG_LAST of the TSS library is an argument.
--
-- Not modelled: the parse and the re-hash of boot services events, the certificates of PE/COFF images,
-- EFI device paths, the choice of a boot entry, the TPM's sessions, policies and sealed keys, which
-- stand behind library calls or the parameters above; and files, test cases, the command line and all
-- output.
pub mod Common
pub mod Buffer
pub mod Digest
pub mod Pcr
pub mod Util
pub mod Uapi
pub mod SdBoot
pub mod Runtime
pub mod Authenticode
pub mod EventLog
pub mod Predictor
