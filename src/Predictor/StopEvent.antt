-- ===== src/Predictor/StopEvent.antt =====
-- The stop event of src/oracle.c: `__stop_event_parse`, `predictor_set_stop_event` and
-- `__check_stop_event`.
pub mod Matching
use pcr_oracle.Common.{
  ℕ, zero, suc, ◌+◌, ◌-◌, Bool, true, false, not, ◌&&◌, ◌||◌, Option, none, some, List, [], ◌∷◌,
  ◌++◌, ltb, ◌==◌, if◌then◌else◌, length, drop, get_or, ◌≡◌, ◌∙◌, ap, ◌⊎◌, inl, inr, Bool-cases,
  arith,
}
use pcr_oracle.Common.Bytes.{CString, codes, octets_eq, isalpha}
use pcr_oracle.Common.Text.{split_at}
use pcr_oracle.Common.Outcome.{Outcome, ok, fatal, undefined, ◌>>=◌, >>=-eq-ok}
use pcr_oracle.EventLog.{
  TpmEvent, ParsedEvent, grub_command, grub_file, other_event, GrubFile, event_ipl,
}

-- STOP_EVENT_*
pub data StopType : Type 0 where
  stop_none stop_grub_command stop_grub_file : StopType

pub record StopEvent : Type 0 where
  pub stop_type : StopType
  pub after : Bool
  pub value : CString

-- The name and the value; `none` is `false`. Without `=` there is no value.
unfoldable pub stop_event_parse : CString → Option (CString × Option CString)
unfolding split_at
stop_event_parse event_spec = elim (split_at b'=' event_spec) [
  | none ↦ some (event_spec, none)
  | some ([], value) ↦ none
  | some (c ∷ name, value) ↦ some (c ∷ name, some value)
]

stop_type_of : CString → Outcome StopType
unfolding octets_eq
stop_type_of name =
    if octets_eq name (codes "grub-command")
    then ok stop_grub_command
    else if octets_eq name (codes "grub-file")
    then ok stop_grub_file
    else fatal

-- strdup(value), which is undefined on NULL.
duplicate : Option CString → Outcome CString
duplicate none = undefined
duplicate (some s) = ok s

unfoldable pub predictor_set_stop_event : CString → Bool → Outcome StopEvent
unfolding stop_event_parse stop_type_of duplicate
predictor_set_stop_event event_desc after = elim (stop_event_parse event_desc) [
  | none ↦ fatal
  | some (name, value) ↦ do
    t ← stop_type_of name
    v ← duplicate value
    ok (record { stop_type = t; after = after; value = v })
]

-- `while (grub_cmd != NULL && !isalpha(*grub_cmd)) grub_cmd++;` runs past the end of a word that has
-- no letter.
from_letter : CString → Outcome CString
from_letter [] = undefined
from_letter (c ∷ s) = if isalpha c then ok (c ∷ s) else from_letter s

unfoldable pub command_matches : CString → CString → Outcome Bool
unfolding from_letter octets_eq
command_matches grub_arg value = do grub_cmd ← from_letter grub_arg; ok (octets_eq grub_cmd value)

-- The last component of the path, or the path.
unfoldable pub file_matches : CString → CString → Bool
unfolding octets_eq
file_matches path value =
    let match_len = length value in
    let path_len = length path in
    if ltb match_len path_len
      && (get_or path (path_len - match_len - 1) 0 == b'/'
          && octets_eq value (drop (path_len - match_len) path))
    then true
    else octets_eq path value

-- The tests on the parsed form.
unfoldable pub parsed_matches :
    {Other : Type 0} → StopType → CString → Option (ParsedEvent Other) → Outcome Bool
unfolding command_matches file_matches
parsed_matches stop_none value parsed = ok false
parsed_matches stop_grub_command value none = ok false
parsed_matches stop_grub_command value (some (grub_command string [])) = ok false
parsed_matches stop_grub_command value (some (grub_command string (arg ∷ argv))) =
    command_matches arg value
parsed_matches stop_grub_command value (some (grub_file f)) = ok false
parsed_matches stop_grub_command value (some (other_event e)) = ok false
parsed_matches stop_grub_file value none = ok false
parsed_matches stop_grub_file value (some (grub_command string argv)) = ok false
parsed_matches stop_grub_file value (some (grub_file f)) = ok (file_matches f.path value)
parsed_matches stop_grub_file value (some (other_event e)) = ok false

-- The register that events of the type are measured into.
abbrev stop_register : StopType → ℕ
stop_register stop_none = 0
stop_register stop_grub_command = 8
stop_register stop_grub_file = 9

-- `tpm_event_parse` is an argument: the event and the scan context afterwards.
module _ {Other ScanCtx : Type 0}
    (tpm_event_parse : TpmEvent Other → ScanCtx → Outcome (TpmEvent Other × ScanCtx)) where
  found_in :
      StopType → CString → TpmEvent Other × ScanCtx → Outcome (Bool × TpmEvent Other × ScanCtx)
  unfolding parsed_matches
  found_in t value (ev, ctx) = do found ← parsed_matches t value ev.parsed; ok (found, ev, ctx)

  check_typed_stop_event :
      StopType → CString → TpmEvent Other → ScanCtx → Outcome (Bool × TpmEvent Other × ScanCtx)
  unfolding found_in
  check_typed_stop_event t value ev ctx =
      if not (ev.pcr_index == stop_register t && ev.event_type == event_ipl)
      then ok (false, ev, ctx)
      else tpm_event_parse ev ctx >>= found_in t value

  -- `switch (stop->type)`
  check_by_type :
      StopType → CString → TpmEvent Other → ScanCtx → Outcome (Bool × TpmEvent Other × ScanCtx)
  unfolding check_typed_stop_event
  check_by_type stop_none value ev ctx = ok (false, ev, ctx)
  check_by_type stop_grub_command value ev ctx =
      check_typed_stop_event stop_grub_command value ev ctx
  check_by_type stop_grub_file value ev ctx = check_typed_stop_event stop_grub_file value ev ctx

  unfoldable pub check_stop_event :
      StopEvent → TpmEvent Other → ScanCtx → Outcome (Bool × TpmEvent Other × ScanCtx)
  unfolding check_by_type
  check_stop_event stop ev ctx = check_by_type stop.stop_type stop.value ev ctx

module _ {Other ScanCtx : Type 0}
    (tpm_event_parse : TpmEvent Other → ScanCtx → Outcome (TpmEvent Other × ScanCtx)) where
  found_in-ok :
      (t : StopType) (value : CString) (r : TpmEvent Other × ScanCtx) (found : Bool)
      (ev' : TpmEvent Other) (ctx' : ScanCtx)
      → found_in tpm_event_parse t value r ≡ ok (found, ev', ctx')
      → r ≡ (ev', ctx')
  unfolding found_in
  found_in-ok t value (ev, ctx) found ev' ctx' h =
      let (b, matches, same) = >>=-eq-ok (parsed_matches t value ev.parsed) _ h in cc

  check_typed_stop_event_cases :
      (t : StopType) (value : CString) (ev : TpmEvent Other) (ctx : ScanCtx) (found : Bool)
      (ev' : TpmEvent Other) (ctx' : ScanCtx)
      → check_typed_stop_event tpm_event_parse t value ev ctx ≡ ok (found, ev', ctx')
      → (ev' ≡ ev) ⊎ (tpm_event_parse ev ctx ≡ ok (ev', ctx'))
  unfolding check_typed_stop_event
  check_typed_stop_event_cases t value ev ctx found ev' ctx' h =
      elim (Bool-cases (ev.pcr_index == stop_register t && ev.event_type == event_ipl)) [
        | inl e ↦
            let (r, parses, finds) =
              >>=-eq-ok (tpm_event_parse ev ctx) (found_in tpm_event_parse t value)
                {b = (found, ev', ctx')} (ground (arith, e, h)) in
            inr (parses ∙ ap ok (found_in-ok t value r found ev' ctx' finds))
        | inr e ↦
            let same : ◌≡◌ {A = Outcome (Bool × TpmEvent Other × ScanCtx)} (ok (false, ev, ctx))
                (ok (found, ev', ctx')) =
              ground (arith, e, h) in
            inl cc
      ]

  check_by_type_cases :
      (t : StopType) (value : CString) (ev : TpmEvent Other) (ctx : ScanCtx) (found : Bool)
      (ev' : TpmEvent Other) (ctx' : ScanCtx)
      → check_by_type tpm_event_parse t value ev ctx ≡ ok (found, ev', ctx')
      → (ev' ≡ ev) ⊎ (tpm_event_parse ev ctx ≡ ok (ev', ctx'))
  unfolding check_by_type
  check_by_type_cases stop_none value ev ctx found ev' ctx' h = inl cc
  check_by_type_cases stop_grub_command value ev ctx found ev' ctx' h =
      check_typed_stop_event_cases stop_grub_command value ev ctx found ev' ctx' h
  check_by_type_cases stop_grub_file value ev ctx found ev' ctx' h =
      check_typed_stop_event_cases stop_grub_file value ev ctx found ev' ctx' h

  -- The check leaves the event as it is, or parses it.
  pub check_stop_event_cases :
      (stop : StopEvent) (ev : TpmEvent Other) (ctx : ScanCtx) (found : Bool) (ev' : TpmEvent Other)
      (ctx' : ScanCtx)
      → check_stop_event tpm_event_parse stop ev ctx ≡ ok (found, ev', ctx')
      → (ev' ≡ ev) ⊎ (tpm_event_parse ev ctx ≡ ok (ev', ctx'))
  unfolding check_stop_event
  check_stop_event_cases stop ev ctx found ev' ctx' h =
      check_by_type_cases stop.stop_type stop.value ev ctx found ev' ctx' h
