-- ===== src/EventLog/Parse/Tests.antt =====
-- Runs of the parsers of src/eventlog.c, and the theorems at concrete inputs.
use pcr_oracle.Common.{ℕ, ◌≡◌, refl, Option, none, some, [], ◌∷◌, ◌++◌, arith}
use pcr_oracle.Common.Bytes.{Octets, codes}
use pcr_oracle.Common.Text.{c_string}
use pcr_oracle.Common.Words.{le_value}
use pcr_oracle.Common.Outcome.{Outcome, ok}
use pcr_oracle.Buffer.{Buffer, buffer_init_read, buffer_get, buffer_get_u32le}
use pcr_oracle.Digest.{zero_digest}
use pcr_oracle.EventLog.{TpmEvent, ParsedEvent, other_event, grub_file, parse_rehash, event_ipl}
use pcr_oracle.EventLog.Forms.{BootEvent, tag_event}
use pcr_oracle.EventLog.Grub.{grub_file_parse, grub_file_join, file_text, grub_file_event_parse}
use pcr_oracle.EventLog.Grub.Texts.{grub_file_parse-grub_file_join}
use pcr_oracle.EventLog.Parse.{
  tpm_event_parse, tpm_event_parse_tag, tpm_event_parse_ipl, ipl_value, ipl_by_register,
  parse_by_type,
}
use pcr_oracle.EventLog.Parse.Tags.{
  IsTag, tag_at, tpm_event_parse_tag-IsTag, tpm_event_parse_tag_lem,
}

grub_file_parse-grub_file_join_example :
    grub_file_parse
      (grub_file_join (record { device = some (codes "hd0,gpt2"); path = codes "/EFI/a.cfg" }))
    ≡ some (record { device = some (codes "hd0,gpt2"); path = codes "/EFI/a.cfg" })
grub_file_parse-grub_file_join_example =
    grub_file_parse-grub_file_join (some (codes "hd0,gpt2")) (codes "/EFI/a.cfg")
      (cc, (cc, (cc, (cc, (cc, (cc, (cc, (cc, tt)))))))) (unfold file_text in omega arith)

-- A tag event of the kernel with two bytes.
abbrev initrd_tag : Octets
initrd_tag = 0xec ∷ 0x22 ∷ 0x3b ∷ 0x8f ∷ 2 ∷ 0 ∷ 0 ∷ 0 ∷ 65 ∷ 66 ∷ []

abbrev initrd_form : ParsedEvent (BootEvent (Unit {0}))
initrd_form = other_event (tag_event 0x8f3b22ec (65 ∷ 66 ∷ []))

tag_runs : tpm_event_parse_tag (buffer_init_read initrd_tag 10) ≡ some initrd_form
unfolding tpm_event_parse_tag buffer_init_read buffer_get buffer_get_u32le le_value
tag_runs = refl

tpm_event_parse_tag-IsTag_example : IsTag initrd_form
tpm_event_parse_tag-IsTag_example =
    tpm_event_parse_tag-IsTag (buffer_init_read initrd_tag 10) initrd_form tag_runs

tpm_event_parse_tag_lem_example :
    tpm_event_parse_tag {Bsa = Unit {0}} (buffer_init_read initrd_tag 10) ≡ tag_at initrd_tag
tpm_event_parse_tag_lem_example = tpm_event_parse_tag_lem initrd_tag (omega arith)

-- A file that grub2 logs in PCR 9.
abbrev grub_cfg : TpmEvent (BootEvent (Unit {0}))
grub_cfg = record {
  event_index = 0;
  parsed = none;
  pcr_index = 9;
  event_type = event_ipl;
  pcr_values = [];
  event_data = codes "/grub.cfg" ++ (0 ∷ []);
  rehash_strategy = parse_rehash;
  predicted_digest = zero_digest;
}

abbrev no_bsa : TpmEvent (BootEvent (Unit {0})) → Buffer → ℕ → Outcome (Option (Unit {0}) × ℕ)
no_bsa ev bp ctx = ok (none, ctx)

parse_runs :
    tpm_event_parse (λ n bs. some bs) no_bsa grub_cfg 7
    ≡ ok (
      record grub_cfg {
        parsed = some (grub_file (record { device = none; path = codes "/grub.cfg" }));
      },
      7,
    )
unfolding tpm_event_parse parse_by_type tpm_event_parse_ipl ipl_value ipl_by_register
    grub_file_event_parse grub_file_parse c_string
parse_runs = refl
