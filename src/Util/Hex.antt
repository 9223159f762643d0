-- ===== src/Util/Hex.antt =====
-- Octet strings of src/util.c: parse_hexdigit, parse_octet, parse_octet_string and
-- print_hex_string_buffer.
use pcr_oracle.Common.{
  append_assoc, append-nil, ℕ, ◌+◌, ◌-◌, ◌*◌, ◌/◌, ◌%◌, ◌≤◌, ◌<◌, ◌≡◌, refl, ap, ap₂, ◌∙◌, Bool,
  true, false, ◌&&◌, [], ◌∷◌, ◌++◌, leb, ltb, if◌then◌else◌, arith, bit_or, length, get_or, set,
  drop, All, Option, none, some, length-append,
}
use pcr_oracle.Common.Bits.{bit_or_step, bit_or-zero}
use pcr_oracle.Common.Bytes.{Octets, CString, IsByte, isdigit}
use pcr_oracle.Common.Words.{u32_mod}
use pcr_oracle.Common.Outcome.{Outcome, ok, ◌>>◌, fatal_if}

-- The value of a hexadecimal digit.
digit_value : ℕ → Option ℕ
digit_value c =
    if isdigit c
    then some (c - b'0')
    else if leb b'a' c && leb c b'f'
    then some (c - b'a' + 10)
    else if leb b'A' c && leb c b'F'
    then some (c - b'A' + 10)
    else none

-- `*ret = (*ret << 4) | octet` in an unsigned char.
shifted_in : ℕ → ℕ → ℕ
shifted_in ret octet = bit_or (ret * 16) octet % 256

-- The result of a call, the text behind the character, and `*ret`.
taken : Option ℕ → CString → ℕ → Bool × CString × ℕ
unfolding shifted_in
taken none pos ret = (false, pos, ret)
taken (some octet) pos ret = (true, pos, shifted_in ret octet)

-- At the end of the text stands a NUL, which is no digit; no caller reads on from there.
unfoldable pub parse_hexdigit : CString → ℕ → Bool × CString × ℕ
unfolding digit_value taken
parse_hexdigit [] ret = (false, [], ret)
parse_hexdigit (c ∷ pos) ret = taken (digit_value c) pos ret

unfoldable pub parse_octet : CString → ℕ → Bool × CString × ℕ
parse_octet pos ret =
    let (good, pos', ret') = parse_hexdigit pos ret in
    if good then parse_hexdigit pos' ret' else (good, pos', ret')

-- The loop from position `i` of the buffer on: the result, which is 0 on an error, and the buffer. A
-- good octet takes two characters, and a single one is never good.
parse_octets : ℕ → CString → ℕ → Octets → ℕ × Octets
parse_octets bufsz [] i buffer = (i, buffer)
parse_octets bufsz (c ∷ []) i buffer =
    let (good, rest, octet) = parse_octet (c ∷ []) (get_or buffer i 0) in
    if leb bufsz i then (0, buffer) else (0, set buffer i octet)
parse_octets bufsz (c ∷ d ∷ string) i buffer =
    let (good, rest, octet) = parse_octet (c ∷ d ∷ string) (get_or buffer i 0) in
    let onwards = parse_octets bufsz string (i + 1) (set buffer i octet) in
    if leb bufsz i then (0, buffer) else if good then onwards else (0, set buffer i octet)

unfoldable pub parse_octet_string : CString → Octets → ℕ → ℕ × Octets
unfolding parse_octets
parse_octet_string string buffer bufsz = parse_octets bufsz string 0 buffer

-- sprintf("%02x") of a byte.
hex_digit : ℕ → ℕ
hex_digit n = if ltb n 10 then b'0' + n else b'a' + (n - 10)

unfoldable pub hex_octets : Octets → CString
unfolding hex_digit
hex_octets [] = []
hex_octets (b ∷ rest) = hex_digit (b / 16) ∷ hex_digit (b % 16) ∷ hex_octets rest

-- `2 * len + 1` is an unsigned int.
unfoldable pub print_hex_string_buffer : Octets → ℕ → Outcome CString
unfolding hex_octets
print_hex_string_buffer octets size = do
  fatal_if (ltb size ((2 * length octets + 1) % u32_mod))
  ok (hex_octets octets)

digit_value-hex_digit : (n : ℕ) → n < 16 → digit_value (hex_digit n) ≡ some n
unfolding digit_value hex_digit
digit_value-hex_digit n h = ground arith

-- A digit goes into the low four bits that the shift has freed.
bit_or-shifted : (a b : ℕ) → b < 16 → bit_or (a * 16) b ≡ a * 16 + b
bit_or-shifted a b h =
    let last : bit_or (a * 16 / 2 / 2 / 2 / 2) (b / 2 / 2 / 2 / 2) ≡ a =
      ap₂ bit_or (omega arith) (omega arith) ∙ bit_or-zero a in
    omega (
      arith,
      bit_or_step (a * 16) b,
      bit_or_step (a * 16 / 2) (b / 2),
      bit_or_step (a * 16 / 2 / 2) (b / 2 / 2),
      bit_or_step (a * 16 / 2 / 2 / 2) (b / 2 / 2 / 2),
    )

parse_hexdigit-hex_digit :
    (n ret : ℕ) (s : CString)
    → n < 16
    → parse_hexdigit (hex_digit n ∷ s) ret ≡ (true, s, (ret * 16 + n) % 256)
unfolding parse_hexdigit shifted_in taken
parse_hexdigit-hex_digit n ret s h = rw (digit_value-hex_digit n h, bit_or-shifted ret n h) refl

parse_octet-hex_octets :
    (b ret : ℕ) (s : CString)
    → IsByte b
    → parse_octet (hex_digit (b / 16) ∷ hex_digit (b % 16) ∷ s) ret ≡ (true, s, b)
unfolding parse_octet
parse_octet-hex_octets b ret s h =
    let e : ((ret * 16 + b / 16) % 256 * 16 + b % 16) % 256 ≡ b = omega arith in
    rw (
      parse_hexdigit-hex_digit (b / 16) ret (hex_digit (b % 16) ∷ s) (omega arith),
      parse_hexdigit-hex_digit (b % 16) ((ret * 16 + b / 16) % 256) s (omega arith),
      e,
    )

set-at :
    (front : Octets) (x y : ℕ) (back : Octets)
    → set (front ++ (x ∷ back)) (length front) y ≡ (front ++ (y ∷ [])) ++ back
set-at [] x y back = refl
set-at (f ∷ front) x y back = ap (λ t. f ∷ t) (set-at front x y back)

-- The digits of `octets` go into the buffer behind `front`.
parse_octets-hex_octets :
    (bufsz i total : ℕ) (octets front back : Octets)
    → All IsByte octets
    → i ≡ length front
    → total ≡ i + length octets
    → total ≤ bufsz
    → length octets ≤ length back
    → parse_octets bufsz (hex_octets octets) i (front ++ back)
      ≡ (total, (front ++ octets) ++ drop (length octets) back)
unfolding parse_octets hex_octets
parse_octets-hex_octets bufsz i total [] front back bytes at sum fits room =
    let same : total ≡ i = omega arith in rw (same, append-nil front) refl
parse_octets-hex_octets bufsz i total (b ∷ octets) front [] bytes at sum fits room =
    absurd (omega arith)
parse_octets-hex_octets bufsz i total (b ∷ octets) front (x ∷ back) (hb, bytes) at sum fits room =
    let small : leb bufsz i ≡ false = ground arith in
    let longer : length (front ++ (b ∷ [])) ≡ length front + 1 = length-append front (b ∷ []) in
    let stored : set (front ++ (x ∷ back)) i b ≡ (front ++ (b ∷ [])) ++ back =
      ap (λ k. set (front ++ (x ∷ back)) k b) at ∙ set-at front x b back in
    rw (small, parse_octet-hex_octets b _ (hex_octets octets) hb, stored)
      (parse_octets-hex_octets bufsz (i + 1) total octets (front ++ (b ∷ [])) back bytes
          (omega arith) (omega arith) fits (omega arith)
        ∙ ap (λ t. (total, t ++ drop (length octets) back)) (append_assoc front (b ∷ []) octets))

-- Bytes that fit into the buffer are printed, where the room for the text is enough, and what is printed
-- is read back: as many bytes, at the start of the buffer, and the rest of the buffer is as it was.
pub parse_octet_string-print_hex_string_buffer :
    (octets buffer : Octets) (size bufsz : ℕ)
    → All IsByte octets
    → 2 * length octets + 1 ≤ size
    → length octets ≤ bufsz
    → bufsz ≤ length buffer
    → (s : CString) × (print_hex_string_buffer octets size ≡ ok s)
      × (parse_octet_string s buffer bufsz ≡ (length octets, octets ++ drop (length octets) buffer))
unfolding print_hex_string_buffer parse_octet_string
parse_octet_string-print_hex_string_buffer octets buffer size bufsz bytes room fits whole =
    let big : ltb size ((2 * length octets + 1) % u32_mod) ≡ false = ground arith in
    (
      hex_octets octets,
      rw big refl,
      parse_octets-hex_octets bufsz 0 (length octets) octets [] buffer bytes refl (omega arith) fits
          (omega arith),
    )
