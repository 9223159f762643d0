-- ===== src/EventLog/Rehash/Commands.antt =====
-- What the re-hashed commands of grub2 are, with a next boot entry and without one.
use pcr_oracle.Common.{
  ◌-◌, ◌<◌, ◌≡◌, refl, ap, sym, Option, none, some, [], ◌∷◌, ◌++◌, arith, length, take_all,
  append_assoc, append-nil, inl, inr,
}
use pcr_oracle.Common.Bytes.{CString, codes}
use pcr_oracle.Common.Outcome.{Outcome, ok}
use pcr_oracle.Digest.{TpmEvdigest, digest_compute}
use pcr_oracle.Digest.Openssl.{Evp}
use pcr_oracle.Util.Paths.{path_max}
use pcr_oracle.Uapi.{UapiBootEntry}
use pcr_oracle.Runtime.{System}
use pcr_oracle.EventLog.{TpmEvent, ParsedEvent, other_event, GrubFile}
use pcr_oracle.EventLog.Forms.{BootEvent, GrubCommandEvent}
use pcr_oracle.EventLog.Grub.{
  grub_file_join, file_text, grub_command_event_parse, command_event, split_keyword,
}
use pcr_oracle.EventLog.Grub.Texts.{
  Keyword, of_linux, of_initrd, of_cmdline, IsNamed, command_text, logged_text, form_of,
  grub_command_event_parse-logged_text, grub_command_event_parse-IsForm,
}
use pcr_oracle.EventLog.Rehash.{
  RehashCtx, formatted, next_file, next_linux, next_initrd, next_cmdline, command_string,
  grub_command_rehash, grub_string_rehash, tpm_parsed_event_rehash,
}

-- The text that is hashed for a next boot entry, its path, and what stands behind the path.
abbrev pub next_of : Keyword → GrubFile → UapiBootEntry → Outcome CString
next_of of_linux = next_linux
next_of of_initrd = next_initrd
next_of of_cmdline = next_cmdline

abbrev pub next_path : Keyword → UapiBootEntry → Option CString
next_path of_linux entry = entry.image_path
next_path of_initrd entry = entry.initrd_path
next_path of_cmdline entry = entry.image_path

abbrev pub behind_path : Keyword → CString → CString
behind_path of_linux options = b' ' ∷ options
behind_path of_initrd options = []
behind_path of_cmdline options = b' ' ∷ options

file_text-append :
    (device : Option CString) (path tail : CString)
    → file_text device (path ++ tail) ≡ file_text device path ++ tail
unfolding file_text
file_text-append none path tail = refl
file_text-append (some device) path tail =
    ap (λ t. b'(' ∷ t) (sym (append_assoc device (b')' ∷ path) tail))

IsNamed-append :
    (device : Option CString) (path tail : CString)
    → IsNamed device path
    → IsNamed device (path ++ tail)
IsNamed-append none path tail (rest, e) = (rest ++ tail, ap (λ t. t ++ tail) e)
IsNamed-append (some device) path tail h = h

next_file_lem :
    (device path : Option CString) (p : CString)
    → path ≡ some p
    → length (file_text device p) < path_max
    → next_file device path ≡ ok (file_text device p)
unfolding next_file formatted grub_file_join
next_file_lem device path p e short =
    rw e (ap ok (take_all (file_text device p) (path_max - 1) (omega arith)))

-- The text of the command for the next boot entry.
next_of_lem :
    (k : Keyword) (f : GrubFile) (entry : UapiBootEntry) (path options : CString)
    → next_path k entry ≡ some path
    → entry.options ≡ some options
    → length (file_text f.device path) < path_max
    → next_of k f entry ≡ ok (command_text k (file_text f.device (path ++ behind_path k options)))
unfolding next_linux next_initrd next_cmdline formatted
next_of_lem of_linux f entry path options p o short =
    rw (next_file_lem f.device entry.image_path path p short) (
      rw o (
        ap (λ t. ok (codes "linux " ++ t)) (sym (file_text-append f.device path (b' ' ∷ options)))))
next_of_lem of_initrd f entry path options p o short =
    rw (next_file_lem f.device entry.initrd_path path p short, append-nil path) refl
next_of_lem of_cmdline f entry path options p o short =
    rw (next_file_lem f.device entry.image_path path p short)
      (rw o (ap ok (sym (file_text-append f.device path (b' ' ∷ options)))))

module _ (evp : Evp) (sys : System) where
  command_rehash_lem :
      (next : GrubFile → UapiBootEntry → Outcome CString) (e : GrubCommandEvent) (ctx : RehashCtx)
      (entry : UapiBootEntry) (f : GrubFile) (text : CString)
      → ctx.boot_entry ≡ some entry
      → e.file ≡ some f
      → next f entry ≡ ok text
      → grub_command_rehash evp sys next e ctx ≡ digest_compute evp ctx.algo text
  unfolding grub_command_rehash command_string
  command_rehash_lem next e ctx entry f text b g h = rw (b, g) (rw h refl)

  -- With a next boot entry that has the path and options, where the device and the path fit PATH_MAX and
  -- are such that grub2's own text for them can be parsed, an event that names a file is re-hashed to the
  -- digest of a text; and that text, logged by grub2 with its keyword, is parsed as the event of the same
  -- kind whose file is the logged device with the path of the next boot entry and, but for an initrd, its
  -- options.
  pub grub_command_rehash_lem :
      {Bsa : Type 0} (k : Keyword) (e : GrubCommandEvent) (ctx : RehashCtx) (entry : UapiBootEntry)
      (f : GrubFile) (path options : CString)
      → ctx.boot_entry ≡ some entry
      → e.file ≡ some f
      → next_path k entry ≡ some path
      → entry.options ≡ some options
      → IsNamed f.device path
      → length (file_text f.device path) < path_max
      → (text : CString) × (grub_command_rehash evp sys (next_of k) e ctx
          ≡ digest_compute evp ctx.algo text)
        × (grub_command_event_parse {Bsa = Bsa} (logged_text k text)
            ≡ some (
                other_event (
                  form_of k (
                    command_event text (
                      some (record { device = f.device; path = path ++ behind_path k options }))))))
  grub_command_rehash_lem k e ctx entry f path options b g p o named short =
      let tail = behind_path k options in
      (
        command_text k (file_text f.device (path ++ tail)),
        command_rehash_lem (next_of k) e ctx entry f
            (command_text k (file_text f.device (path ++ tail))) b g
            (next_of_lem k f entry path options p o short),
        grub_command_event_parse-logged_text k f.device (path ++ tail)
            (IsNamed-append f.device path tail named),
      )

  module _ {Bsa : Type 0}
      (rehash_efi : TpmEvent (BootEvent Bsa)
        → BootEvent Bsa
        → RehashCtx
        → Outcome (Option TpmEvdigest)) where
    string_rehash :
        (k : Keyword) (ev : TpmEvent (BootEvent Bsa)) (e : GrubCommandEvent) (ctx : RehashCtx)
        → ctx.boot_entry ≡ none
        → tpm_parsed_event_rehash evp sys rehash_efi ev (some (other_event (form_of k e))) ctx
          ≡ digest_compute evp ctx.algo e.string
    unfolding tpm_parsed_event_rehash grub_command_rehash command_string
    string_rehash of_linux ev e ctx n = rw n refl
    string_rehash of_initrd ev e ctx n = rw n refl
    string_rehash of_cmdline ev e ctx n = rw n refl

    -- Without a next boot entry, every text that is parsed as a command of grub2 is re-hashed to the
    -- digest of what stands behind its keyword.
    pub tpm_parsed_event_rehash-unchanged :
        (value keyword arg : CString) (form : ParsedEvent (BootEvent Bsa))
        (ev : TpmEvent (BootEvent Bsa)) (ctx : RehashCtx)
        → split_keyword value ≡ some (keyword, arg)
        → grub_command_event_parse value ≡ some form
        → ctx.boot_entry ≡ none
        → tpm_parsed_event_rehash evp sys rehash_efi ev (some form) ctx
          ≡ digest_compute evp ctx.algo arg
    unfolding tpm_parsed_event_rehash grub_string_rehash command_event
    tpm_parsed_event_rehash-unchanged value keyword arg form ev ctx s e n =
        elim (grub_command_event_parse-IsForm value keyword arg form s e) [
          | inl c ↦ rw c refl
          | inr (k, f, c) ↦ rw c (string_rehash k ev (command_event arg f) ctx n)
        ]
