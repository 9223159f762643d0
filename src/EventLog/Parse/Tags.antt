-- ===== src/EventLog/Parse/Tags.antt =====
-- The tag events of src/eventlog.c: what `__tpm_event_parse_tag` makes of the bytes of an event.
use pcr_oracle.Common.{
  ℕ, ◌+◌, ◌-◌, ◌%◌, ◌≤◌, ◌<◌, ◌≡◌, refl, Bool, true, false, ◌&&◌, Option, none, some, ltb, leb,
  if◌then◌else◌, arith, length, take, drop, length-take, Bool-cases, Option-cases, inl, inr,
}
use pcr_oracle.Common.Bytes.{Octets}
use pcr_oracle.Common.Words.{u32_mod, u64_mod, sub64, le_value}
use pcr_oracle.Buffer.{Buffer, buffer_init_read, buffer_get, buffer_get_u32le}
use pcr_oracle.EventLog.{ParsedEvent, other_event}
use pcr_oracle.EventLog.Forms.{BootEvent, tag_event}
use pcr_oracle.EventLog.Parse.{
  tpm_event_parse_tag, is_known_tag, tag_data_size, tag_fields, tag_data, tag_of,
}

-- A tag event with an id that can be re-hashed, and bytes that fit `event_data`.
pub record IsTag {Bsa : Type 0} (form : ParsedEvent (BootEvent Bsa)) : Type 0 where
  pub id : ℕ
  pub bytes : Octets
  pub is_tag : form ≡ other_event (tag_event id bytes)
  pub known : is_known_tag id ≡ true
  pub fits : length bytes ≤ tag_data_size

-- `buffer_get` gives no more bytes than it is asked for.
buffer_get-le :
    (bp : Buffer) (count : ℕ) {bs : Octets} {bp' : Buffer}
    → buffer_get bp count ≡ some (bs, bp')
    → length bs ≤ count
unfolding buffer_get
buffer_get-le bp count {bs} {bp'} h = ground (arith, length-take count (drop bp.rpos bp.octets))

-- The bytes of an event from position `r` on.
abbrev read_from : ℕ → Octets → Buffer
read_from r bs = record { rpos = r; wpos = length bs; size = length bs; octets = bs }

buffer_get-read_from :
    (r k : ℕ) (bs : Octets)
    → r ≤ length bs
    → length bs < u32_mod
    → buffer_get (read_from r bs) k
      ≡ (if leb (r + k) (length bs) then some (take k (drop r bs), read_from (r + k) bs) else none)
unfolding buffer_get
buffer_get-read_from r k bs h small =
    let there : sub64 (length bs) r ≡ length bs - r = omega arith in
    elim (Bool-cases (leb (r + k) (length bs))) [
      | inl fits ↦
          let next : (r + k) % u64_mod ≡ r + k = ground arith in
          let room : ltb (length bs - r) k ≡ false = ground arith in
          rw (there, room, next, fits) refl
      | inr short ↦
          let room : ltb (length bs - r) k ≡ true = ground arith in rw (there, room, short) refl
    ]

buffer_get_u32le-read_from :
    (r : ℕ) (bs : Octets)
    → r ≤ length bs
    → length bs < u32_mod
    → buffer_get_u32le (read_from r bs) ≡ (
        if leb (r + 4) (length bs)
        then some (le_value (take 4 (drop r bs)), read_from (r + 4) bs)
        else none)
unfolding buffer_get_u32le
buffer_get_u32le-read_from r bs h small = elim (Bool-cases (leb (r + 4) (length bs))) [
  | inl fits ↦ ground (arith, buffer_get-read_from r 4 bs h small, fits)
  | inr short ↦ ground (arith, buffer_get-read_from r 4 bs h small, short)
]

module _ {Bsa : Type 0} where
  tag_of-IsTag :
      (id len : ℕ) (bp : Buffer) (form : ParsedEvent (BootEvent Bsa))
      → len ≤ tag_data_size
      → tag_of id (buffer_get bp len) ≡ some form
      → IsTag form
  unfolding tag_of
  tag_of-IsTag id len bp form h e = elim (Option-cases (buffer_get bp len)) [
    | inl n ↦ ground (arith, n, e)
    | inr ((bs, bp'), s) ↦ elim (Bool-cases (is_known_tag id)) [
      | inl k ↦
          let same : other_event (tag_event id bs) ≡ form = ground (arith, s, k, e) in
          record {
            id = id;
            bytes = bs;
            is_tag = cc;
            known = k;
            fits = omega (arith, buffer_get-le bp len s);
          }
      | inr k ↦ ground (arith, s, k, e)
    ]
  ]

  tag_data-IsTag :
      (id : ℕ) (o : Option (ℕ × Buffer)) (form : ParsedEvent (BootEvent Bsa))
      → tag_data id o ≡ some form
      → IsTag form
  unfolding tag_data
  tag_data-IsTag id none form e = cc
  tag_data-IsTag id (some (len, bp)) form e = elim (Bool-cases (ltb tag_data_size len)) [
    | inl l ↦ ground (arith, l, e)
    | inr l ↦ tag_of-IsTag id len bp form (ground arith) (ground (arith, l, e))
  ]

  tag_fields-IsTag :
      (o : Option (ℕ × Buffer)) (form : ParsedEvent (BootEvent Bsa))
      → tag_fields o ≡ some form
      → IsTag form
  unfolding tag_fields
  tag_fields-IsTag none form e = cc
  tag_fields-IsTag (some (id, bp)) form e = tag_data-IsTag id (buffer_get_u32le bp) form e

  -- Whatever the buffer, a tag event that is parsed has one of the three ids that can be re-hashed, and
  -- no more bytes than the 52 of its array.
  pub tpm_event_parse_tag-IsTag :
      (bp : Buffer) (form : ParsedEvent (BootEvent Bsa))
      → tpm_event_parse_tag bp ≡ some form
      → IsTag form
  unfolding tpm_event_parse_tag
  tpm_event_parse_tag-IsTag bp form e = tag_fields-IsTag (buffer_get_u32le bp) form e

  -- The fields by their positions: the id in 4 bytes, the length in 4, and the data.
  abbrev pub tag_at : Octets → Option (ParsedEvent (BootEvent Bsa))
  tag_at bs =
      let id = le_value (take 4 bs) in
      let len = le_value (take 4 (drop 4 bs)) in
      if leb 8 (length bs)
        && (leb len tag_data_size && (leb (8 + len) (length bs) && is_known_tag id))
      then some (other_event (tag_event id (take len (drop 8 bs))))
      else none

  tag_of-cases :
      (id : ℕ) (here : Bool) (bs : Octets) (bp : Buffer)
      → tag_of {Bsa = Bsa} id (if here then some (bs, bp) else none)
        ≡ (if here && is_known_tag id then some (other_event (tag_event id bs)) else none)
  unfolding tag_of
  tag_of-cases id true bs bp = refl
  tag_of-cases id false bs bp = refl

  tag_tail :
      (id len : ℕ) (bs : Octets)
      → 8 ≤ length bs
      → length bs < u32_mod
      → tag_data {Bsa = Bsa} id (some (len, read_from 8 bs)) ≡ (
          if leb len tag_data_size && (leb (8 + len) (length bs) && is_known_tag id)
          then some (other_event (tag_event id (take len (drop 8 bs))))
          else none)
  unfolding tag_data
  tag_tail id len bs long small = elim (Bool-cases (leb len tag_data_size)) [
    | inl l ↦
        let under : ltb tag_data_size len ≡ false = ground arith in
        rw (l, under, buffer_get-read_from 8 len bs long small)
          (tag_of-cases id (leb (8 + len) (length bs)) (take len (drop 8 bs))
            (read_from (8 + len) bs))
    | inr l ↦ let over : ltb tag_data_size len ≡ true = ground arith in rw (l, over) refl
  ]

  -- On an event of fewer than `2 ^ 32` bytes, the parser gives the tag event whose id stands in the
  -- first 4 bytes and whose data is as long as the next 4 say, where there are that many bytes, at most
  -- 52, and the id is one of the three; it gives none otherwise.
  pub tpm_event_parse_tag_lem :
      (bs : Octets)
      → length bs < u32_mod
      → tpm_event_parse_tag (buffer_init_read bs (length bs)) ≡ tag_at bs
  unfolding tpm_event_parse_tag buffer_init_read tag_fields
  tpm_event_parse_tag_lem bs small =
      rw (buffer_get_u32le-read_from 0 bs (omega arith) small)
        (elim (Bool-cases (leb 4 (length bs))) [
          | inr short ↦
              let shorter : leb 8 (length bs) ≡ false = ground arith in
              rw (short, shorter) (unfold tag_data in refl)
          | inl one ↦
              rw (one, buffer_get_u32le-read_from 4 bs (ground arith) small)
                (elim (Bool-cases (leb 8 (length bs))) [
                  | inr short ↦ rw short (unfold tag_data in refl)
                  | inl two ↦ rw two (
                      tag_tail (le_value (take 4 bs)) (le_value (take 4 (drop 4 bs))) bs
                        (ground arith) small)
                ])
        ])
