-- ===== src/EventLog/Grub/Texts.antt =====
-- The texts that grub2 logs, and that `__tpm_event_grub_command_rehash` of src/eventlog.c writes.
use pcr_oracle.Common.{
  ◌-◌, ◌<◌, ◌≡◌, ◌≢◌, ◌∙◌, refl, sym, Bool, true, false, ◌⊎◌, inl, inr, Option, none, some, ◌∷◌,
  ◌++◌, if◌then◌else◌, arith, length, take_all, All,
}
use pcr_oracle.Common.Bytes.{CString, codes, octets_eq}
use pcr_oracle.Common.Text.{split_at-append, starts_with}
use pcr_oracle.Util.Paths.{path_max}
use pcr_oracle.EventLog.{ParsedEvent, grub_command, other_event, GrubFile}
use pcr_oracle.EventLog.Forms.{GrubCommandEvent, BootEvent, grub_linux, grub_initrd, kernel_cmdline}
use pcr_oracle.EventLog.Grub.{
  grub_file_parse, file_text, grub_file_join, grub_command_event_parse, split_keyword,
  file_argument, command_event, by_keyword, with_file, required_file, command_words,
}

-- A path without a device starts with a slash, and a device has no closing parenthesis.
abbrev pub IsNamed : Option CString → CString → Type 0
IsNamed none path = (rest : CString) × (path ≡ b'/' ∷ rest)
IsNamed (some device) path = All (λ c. c ≢ b')') device

pub grub_file_parse-file_text :
    (device : Option CString) (path : CString)
    → IsNamed device path
    → grub_file_parse (file_text device path) ≡ some (record { device = device; path = path })
unfolding grub_file_parse file_text
grub_file_parse-file_text none path (rest, e) = rw e refl
grub_file_parse-file_text (some device) path h = rw (split_at-append b')' device path h) refl

-- A file whose text is shorter than 4095 bytes, whose device has no closing parenthesis, and whose path
-- starts with a slash where it has no device, is parsed back from the text that is printed for it.
pub grub_file_parse-grub_file_join :
    (device : Option CString) (path : CString)
    → IsNamed device path
    → length (file_text device path) < path_max
    → grub_file_parse (grub_file_join (record { device = device; path = path }))
      ≡ some (record { device = device; path = path })
unfolding grub_file_join
grub_file_parse-grub_file_join device path h short =
    rw (take_all (file_text device path) (path_max - 1) (omega arith))
      (grub_file_parse-file_text device path h)

-- `command (device)path...` names the file behind the blank.
file_argument-append :
    (command : CString) (device : Option CString) (path : CString)
    → All (λ c. c ≢ b' ') command
    → IsNamed device path
    → file_argument (command ++ (b' ' ∷ file_text device path))
      ≡ some (some (record { device = device; path = path }))
unfolding file_argument
file_argument-append command device path plain h =
    rw
      (
        file_argument,
        split_at-append b' ' command (file_text device path) plain,
        grub_file_parse-file_text device path h,
      )
      refl

-- The keyword that grub2 logs in front of a text.
pub data Keyword : Type 0 where
  of_linux of_initrd of_cmdline : Keyword

-- What stands in front of the text, and in front of the file in it.
abbrev pub keyword_of : Keyword → CString
keyword_of of_linux = codes "grub_cmd"
keyword_of of_initrd = codes "grub_cmd"
keyword_of of_cmdline = codes "kernel_cmdline"

abbrev pub command_text : Keyword → CString → CString
command_text of_linux file = codes "linux " ++ file
command_text of_initrd file = codes "initrd " ++ file
command_text of_cmdline file = file

-- A logged event with the text `arg`.
abbrev pub logged_text : Keyword → CString → CString
logged_text k arg = keyword_of k ++ (codes ": " ++ arg)

abbrev pub form_of : {Bsa : Type 0} → Keyword → GrubCommandEvent → BootEvent Bsa
form_of of_linux e = grub_linux e
form_of of_initrd e = grub_initrd e
form_of of_cmdline e = kernel_cmdline e

split_keyword-logged_text :
    (k : Keyword) (arg : CString) → split_keyword (logged_text k arg) ≡ some (keyword_of k, arg)
unfolding split_keyword
split_keyword-logged_text of_linux arg = refl
split_keyword-logged_text of_initrd arg = refl
split_keyword-logged_text of_cmdline arg = refl

linux_prefix : (s : CString) → starts_with (codes "linux") (codes "linux " ++ s) ≡ true
unfolding starts_with
linux_prefix s = refl

initrd_prefix : (s : CString) → starts_with (codes "initrd") (codes "initrd " ++ s) ≡ true
unfolding starts_with
initrd_prefix s = refl

initrd_no_linux : (s : CString) → starts_with (codes "linux") (codes "initrd " ++ s) ≡ false
unfolding starts_with
initrd_no_linux s = refl

linux_argument :
    (device : Option CString) (path : CString)
    → IsNamed device path
    → file_argument (codes "linux " ++ file_text device path)
      ≡ some (some (record { device = device; path = path }))
linux_argument device path named =
    file_argument-append (codes "linux") device path (cc, (cc, (cc, (cc, (cc, tt))))) named

initrd_argument :
    (device : Option CString) (path : CString)
    → IsNamed device path
    → file_argument (codes "initrd " ++ file_text device path)
      ≡ some (some (record { device = device; path = path }))
initrd_argument device path named =
    file_argument-append (codes "initrd") device path (cc, (cc, (cc, (cc, (cc, (cc, tt)))))) named

module _ {Bsa : Type 0} where
  parse_parts :
      (value : CString) (parts : CString × CString)
      → split_keyword value ≡ some parts
      → grub_command_event_parse {Bsa = Bsa} value ≡ by_keyword parts
  unfolding grub_command_event_parse
  parse_parts value parts h = rw (grub_command_event_parse, h) refl

  linux_lem :
      (arg : CString) (f : Option GrubFile)
      → starts_with (codes "linux") arg ≡ true
      → file_argument arg ≡ some f
      → by_keyword {Bsa = Bsa} (codes "grub_cmd", arg)
        ≡ some (other_event (grub_linux (command_event arg f)))
  unfolding by_keyword octets_eq
  linux_lem arg f s h = rw (s, h) refl

  initrd_lem :
      (arg : CString) (f : Option GrubFile)
      → starts_with (codes "linux") arg ≡ false
      → starts_with (codes "initrd") arg ≡ true
      → file_argument arg ≡ some f
      → by_keyword {Bsa = Bsa} (codes "grub_cmd", arg)
        ≡ some (other_event (grub_initrd (command_event arg f)))
  unfolding by_keyword octets_eq
  initrd_lem arg f n s h = rw (n, s, h) refl

  cmdline_lem :
      (arg : CString) (f : GrubFile)
      → grub_file_parse arg ≡ some f
      → by_keyword {Bsa = Bsa} (codes "kernel_cmdline", arg)
        ≡ some (other_event (kernel_cmdline (command_event arg (some f))))
  unfolding by_keyword octets_eq
  cmdline_lem arg f h = rw h refl

  by_keyword-command_text :
      (k : Keyword) (device : Option CString) (path : CString)
      → IsNamed device path
      → by_keyword {Bsa = Bsa} (keyword_of k, command_text k (file_text device path))
        ≡ some (
            other_event (
              form_of k (
                command_event
                  (command_text k (file_text device path))
                  (some (record { device = device; path = path })))))
  by_keyword-command_text of_linux device path named =
      linux_lem (codes "linux " ++ file_text device path)
        (some (record { device = device; path = path })) (linux_prefix (file_text device path))
        (linux_argument device path named)
  by_keyword-command_text of_initrd device path named =
      initrd_lem (codes "initrd " ++ file_text device path)
        (some (record { device = device; path = path })) (initrd_no_linux (file_text device path))
        (initrd_prefix (file_text device path)) (initrd_argument device path named)
  by_keyword-command_text of_cmdline device path named =
      cmdline_lem (file_text device path) (record { device = device; path = path })
        (grub_file_parse-file_text device path named)

  -- A `linux` or `initrd` command or a kernel command line that names a file and goes on behind it, as
  -- grub2 logs it with its keyword, is parsed into the event of its kind with the text, its words, and
  -- the device and everything behind the device as the file.
  pub grub_command_event_parse-logged_text :
      (k : Keyword) (device : Option CString) (path : CString)
      → IsNamed device path
      → grub_command_event_parse {Bsa = Bsa}
          (logged_text k (command_text k (file_text device path)))
        ≡ some (
            other_event (
              form_of k (
                command_event
                  (command_text k (file_text device path))
                  (some (record { device = device; path = path })))))
  grub_command_event_parse-logged_text k device path named =
      parse_parts (logged_text k (command_text k (file_text device path)))
        (keyword_of k, command_text k (file_text device path))
        (split_keyword-logged_text k (command_text k (file_text device path)))
      ∙ by_keyword-command_text k device path named

  -- A command with no file of its own, or one of the three kinds, each with the text.
  abbrev pub IsForm : CString → ParsedEvent (BootEvent Bsa) → Type 0
  IsForm arg form =
      (form ≡ grub_command arg (command_words arg))
      ⊎ ((k : Keyword) × (f : Option GrubFile) × (form
            ≡ other_event (form_of k (command_event arg f))))

  with_file-IsForm :
      (k : Keyword) (arg : CString) (f : Option (Option GrubFile))
      (form : ParsedEvent (BootEvent Bsa))
      → with_file (form_of k) arg f ≡ some form
      → IsForm arg form
  unfolding with_file
  with_file-IsForm k arg none form e = cc
  with_file-IsForm k arg (some f) form e = inr (k, f, cc)

  required_file-IsForm :
      (arg : CString) (f : Option GrubFile) (form : ParsedEvent (BootEvent Bsa))
      → required_file arg f ≡ some form
      → IsForm arg form
  unfolding required_file
  required_file-IsForm arg none form e = cc
  required_file-IsForm arg (some f) form e = inr (of_cmdline, some f, cc)

  plain-IsForm :
      (arg : CString) (form : ParsedEvent (BootEvent Bsa))
      → some (grub_command arg (command_words arg)) ≡ some form
      → IsForm arg form
  plain-IsForm arg form e = inl cc

  none-IsForm :
      (arg : CString) (form : ParsedEvent (BootEvent Bsa)) → none ≡ some form → IsForm arg form
  none-IsForm arg form e = cc

  choose-IsForm :
      (arg : CString) (b : Bool) (x y : Option (ParsedEvent (BootEvent Bsa)))
      (form : ParsedEvent (BootEvent Bsa))
      → (x ≡ some form → IsForm arg form)
      → (y ≡ some form → IsForm arg form)
      → (if b then x else y) ≡ some form
      → IsForm arg form
  choose-IsForm arg true x y form h k e = h e
  choose-IsForm arg false x y form h k e = k e

  by_keyword-IsForm :
      (keyword arg : CString) (form : ParsedEvent (BootEvent Bsa))
      → by_keyword (keyword, arg) ≡ some form
      → IsForm arg form
  unfolding by_keyword
  by_keyword-IsForm keyword arg form e =
      choose-IsForm arg _ _ _ form (with_file-IsForm of_linux arg (file_argument arg) form)
        (choose-IsForm arg _ _ _ form (with_file-IsForm of_initrd arg (file_argument arg) form) (
          choose-IsForm arg _ _ _ form (plain-IsForm arg form) (
            choose-IsForm arg _ _ _ form (required_file-IsForm arg (grub_file_parse arg) form)
              (none-IsForm arg form))))
        e

  -- A parsed command keeps everything behind its keyword.
  pub grub_command_event_parse-IsForm :
      (value keyword arg : CString) (form : ParsedEvent (BootEvent Bsa))
      → split_keyword value ≡ some (keyword, arg)
      → grub_command_event_parse value ≡ some form
      → IsForm arg form
  grub_command_event_parse-IsForm value keyword arg form s e =
      by_keyword-IsForm keyword arg form (sym (parse_parts value (keyword, arg) s) ∙ e)
