-- ===== src/EventLog/Grub.antt =====
-- The events of grub2 in src/eventlog.c: `__grub_file_parse`, `__grub_file_join`,
-- `__tpm_event_grub_file_event_parse` and `__tpm_event_grub_command_event_parse`.
pub mod Texts
use pcr_oracle.Common.{
  ℕ, ◌-◌, Bool, ◌&&◌, ◌||◌, Option, none, some, List, [], ◌∷◌, ◌++◌, ◌==◌, if◌then◌else◌, take,
}
use pcr_oracle.Common.Bytes.{CString, codes, octets_eq, isalpha}
use pcr_oracle.Common.Text.{split_at, starts_with, strtok}
use pcr_oracle.Util.Paths.{path_max}
use pcr_oracle.EventLog.{ParsedEvent, grub_command, grub_file, other_event, GrubFile}
use pcr_oracle.EventLog.Forms.{GrubCommandEvent, BootEvent, grub_linux, grub_initrd, kernel_cmdline}

-- `(device)path`, behind the opening parenthesis.
with_device : Option (CString × CString) → Option GrubFile
with_device none = none
with_device (some (device, path)) = some (record { device = some device; path = path })

unfoldable pub grub_file_parse : CString → Option GrubFile
unfolding with_device split_at
grub_file_parse [] = none
grub_file_parse (c ∷ value) =
    if c == b'/'
    then some (record { device = none; path = c ∷ value })
    else if c == b'('
    then with_device (split_at b')' value)
    else none

-- What the formats "%s" and "(%s)%s" give.
unfoldable pub file_text : Option CString → CString → CString
file_text none path = path
file_text (some device) path = b'(' ∷ device ++ (b')' ∷ path)

-- snprintf() into `path[PATH_MAX]`.
unfoldable pub grub_file_join : GrubFile → CString
unfolding file_text
grub_file_join f = take (path_max - 1) (file_text f.device f.path)

unfoldable pub grub_file_event_parse :
    {Bsa : Type 0} → CString → Option (ParsedEvent (BootEvent Bsa))
grub_file_event_parse value = elim (grub_file_parse value) [
  | none ↦ none
  | some f ↦ some (grub_file f)
]

-- GRUB_COMMAND_ARGV_MAX
abbrev pub grub_command_argv_max : ℕ
grub_command_argv_max = 32

-- The letters at the start, and the rest.
keyword_letters : CString → CString × CString
keyword_letters [] = ([], [])
keyword_letters (c ∷ s) =
    let (word, rest) = keyword_letters s in
    if isalpha c || c == b'_' then (c ∷ word, rest) else ([], c ∷ s)

behind_colon : CString → CString → Option (CString × CString)
behind_colon word [] = none
behind_colon word (c ∷ []) = none
behind_colon word (c ∷ d ∷ arg) = if c == b':' && d == b' ' then some (word, arg) else none

-- `keyword: arg`
unfoldable pub split_keyword : CString → Option (CString × CString)
unfolding keyword_letters behind_colon
split_keyword value = let (word, rest) = keyword_letters value in behind_colon word rest

-- The file behind the first blank: `none` is the jump to `failed`, `some none` is no file.
unfoldable pub file_argument : CString → Option (Option GrubFile)
file_argument arg = elim (split_at b' ' arg) [
  | none ↦ some none
  | some (command, value) ↦ elim (grub_file_parse value) [ none ↦ none | some f ↦ some (some f) ]
]

abbrev pub is_blank : ℕ → Bool
is_blank c = c == b' ' || c == 9

-- The words that fit the array, which keeps a NULL at its end.
unfoldable pub command_words : CString → List CString
command_words arg = take (grub_command_argv_max - 1) (strtok is_blank arg)

unfoldable pub command_event : CString → Option GrubFile → GrubCommandEvent
command_event arg f = record { string = arg; argv = command_words arg; file = f }

module _ {Bsa : Type 0} where
  with_file :
      (GrubCommandEvent → BootEvent Bsa)
      → CString
      → Option (Option GrubFile)
      → Option (ParsedEvent (BootEvent Bsa))
  with_file form arg none = none
  with_file form arg (some f) = some (other_event (form (command_event arg f)))

  required_file : CString → Option GrubFile → Option (ParsedEvent (BootEvent Bsa))
  required_file arg none = none
  required_file arg (some f) = some (other_event (kernel_cmdline (command_event arg (some f))))

  -- The subtype by the keyword, and for `grub_cmd` by the command.
  by_keyword : CString × CString → Option (ParsedEvent (BootEvent Bsa))
  unfolding with_file required_file
  by_keyword (keyword, arg) =
      if octets_eq keyword (codes "grub_cmd") && starts_with (codes "linux") arg
      then with_file grub_linux arg (file_argument arg)
      else if octets_eq keyword (codes "grub_cmd") && starts_with (codes "initrd") arg
      then with_file grub_initrd arg (file_argument arg)
      else if octets_eq keyword (codes "grub_cmd")
      then some (grub_command arg (command_words arg))
      else if octets_eq keyword (codes "kernel_cmdline")
      then required_file arg (grub_file_parse arg)
      else none

  unfoldable pub grub_command_event_parse : CString → Option (ParsedEvent (BootEvent Bsa))
  unfolding by_keyword
  grub_command_event_parse value = elim (split_keyword value) [
    | none ↦ none
    | some parts ↦ by_keyword parts
  ]
