-- ===== src/Buffer/RoundTrip.antt =====
-- The typed writers and readers of src/bufparser.h, over runs of words.
use pcr_oracle.Common.{
  ℕ, ◌^◌, ◌≤◌, ◌<◌, ◌≡◌, refl, ap, ◌∙◌, sym, Option, none, some, List, [], ◌∷◌, ◌++◌, arith, length,
  take, drop, length-append, take-append, drop-append, All, Option-cases, inl, inr,
}
use mathlib.Core.List.{append_assoc, append-nil}
use pcr_oracle.Common.Bytes.{Octets}
use pcr_oracle.Common.Words.{le_value, le_octets, length-le_octets, le_value-le_octets}
use pcr_oracle.Buffer.{
  Buffer, buffer_get, buffer_put, buffer_get_u8, buffer_get_u16le, buffer_get_u32le,
  buffer_get_u64le, buffer_put_u8, buffer_put_u16le, buffer_put_u32le, buffer_put_u64le,
}
use pcr_oracle.Buffer.Invariant.{IsWellFormed, buffer_get-IsWellFormed, buffer_put-IsWellFormed}
use pcr_oracle.Buffer.Contents.{
  contents, buffer_get-contents, buffer_put-contents, buffer_get_enough,
}

-- The widths that the header has readers and writers for.
pub data Width : Type 0 where
  u8 u16 u32 u64 : Width

abbrev pub bytes_of : Width → ℕ
bytes_of u8 = 1
bytes_of u16 = 2
bytes_of u32 = 4
bytes_of u64 = 8

pub record Word : Type 0 where
  pub width : Width
  pub value : ℕ

abbrev pub Fits : Word → Type 0
Fits w = w.value < 256 ^ bytes_of w.width

unfoldable pub put_width : Width → Buffer → ℕ → Option Buffer
unfolding buffer_put_u8 buffer_put_u16le buffer_put_u32le buffer_put_u64le
put_width u8 = buffer_put_u8
put_width u16 = buffer_put_u16le
put_width u32 = buffer_put_u32le
put_width u64 = buffer_put_u64le

unfoldable pub get_width : Width → Buffer → Option (ℕ × Buffer)
unfolding buffer_get_u8 buffer_get_u16le buffer_get_u32le buffer_get_u64le
get_width u8 = buffer_get_u8
get_width u16 = buffer_get_u16le
get_width u32 = buffer_get_u32le
get_width u64 = buffer_get_u64le

-- Write the words one after the other, as long as each fits.
unfoldable pub put_words : Buffer → List Word → Option Buffer
put_words bp [] = some bp
put_words bp (w ∷ ws) = elim (put_width w.width bp w.value) [
  | none ↦ none
  | some bp' ↦ put_words bp' ws
]

-- Read words of the given widths.
pub get_words : Buffer → List Word → Option (List ℕ × Buffer)
get_words bp [] = some ([], bp)
get_words bp (w ∷ ws) = elim (get_width w.width bp) [
  | none ↦ none
  | some (v, bp') ↦ elim (get_words bp' ws) [ none ↦ none | some (vs, bp'') ↦ some (v ∷ vs, bp'') ]
]

abbrev pub values : List Word → List ℕ
values [] = []
values (w ∷ ws) = w.value ∷ values ws

abbrev encoding : List Word → Octets
encoding [] = []
encoding (w ∷ ws) = le_octets (bytes_of w.width) w.value ++ encoding ws

put_width_lem :
    (w : Width) (bp : Buffer) (v : ℕ) → put_width w bp v ≡ buffer_put bp (le_octets (bytes_of w) v)
unfolding put_width
put_width_lem u8 bp v = refl
put_width_lem u16 bp v = refl
put_width_lem u32 bp v = refl
put_width_lem u64 bp v = refl

get_width_lem :
    (w : Width) (bp : Buffer) {bs : Octets} {bp' : Buffer}
    → buffer_get bp (bytes_of w) ≡ some (bs, bp')
    → get_width w bp ≡ some (le_value bs, bp')
unfolding get_width
get_width_lem u8 bp h = ground arith
get_width_lem u16 bp h = ground arith
get_width_lem u32 bp h = ground arith
get_width_lem u64 bp h = ground arith

-- One word written is one word appended to the queue.
put_width-contents :
    (w : Width) (v : ℕ) {bp bp' : Buffer}
    → IsWellFormed bp
    → put_width w bp v ≡ some bp'
    → (contents bp' ≡ contents bp ++ le_octets (bytes_of w) v) × IsWellFormed bp'
put_width-contents w v {bp} {bp'} wf h =
    let e : buffer_put bp (le_octets (bytes_of w) v) ≡ some bp' = sym (put_width_lem w bp v) ∙ h in
    (
      buffer_put-contents (le_octets (bytes_of w) v) wf e,
      buffer_put-IsWellFormed (le_octets (bytes_of w) v) wf e,
    )

put_words-contents :
    (ws : List Word) {bp bp' : Buffer}
    → IsWellFormed bp
    → put_words bp ws ≡ some bp'
    → (contents bp' ≡ contents bp ++ encoding ws) × IsWellFormed bp'
unfolding put_words
put_words-contents [] {bp} {bp'} wf h =
    let e : bp ≡ bp' = cc in rw (← e) (sym (append-nil (contents bp)), wf)
put_words-contents (w ∷ ws) {bp} {bp'} wf h = elim (Option-cases (put_width w.width bp w.value)) [
  | inl e ↦ ground arith
  | inr (bp1, e) ↦
      let rest : put_words bp1 ws ≡ some bp' = ground arith in
      let (c1, wf1) = put_width-contents w.width w.value wf e in
      let (c2, wf2) = put_words-contents ws wf1 rest in
      (
        c2
            ∙ ap (λ t. t ++ encoding ws) c1
            ∙ append_assoc (contents bp) (le_octets (bytes_of w.width) w.value) (encoding ws),
        wf2,
      )
]

-- A word at the front of the queue is read back, and the queue goes on behind it.
pub get_width-contents :
    (w : Word) (rest : Octets) {bp : Buffer}
    → IsWellFormed bp
    → Fits w
    → contents bp ≡ le_octets (bytes_of w.width) w.value ++ rest
    → (bp' : Buffer) × (get_width w.width bp ≡ some (w.value, bp'))
      × (contents bp' ≡ rest)
      × IsWellFormed bp'
get_width-contents w rest {bp} wf fits c =
    let k = bytes_of w.width in
    let width : length (le_octets k w.value) ≡ k = length-le_octets k w.value in
    let enough : k ≤ length (contents bp) =
      omega (arith, ap length c, length-append (le_octets k w.value) rest) in
    let ((bs, bp'), e) = buffer_get_enough k wf enough in
    let (front, back) = buffer_get-contents k wf e in
    let word : bs ≡ le_octets k w.value =
      front ∙ ap (take k) c ∙ take-append (le_octets k w.value) rest k width in
    (
      bp',
      get_width_lem w.width bp e
          ∙ ap (λ v. some (v, bp')) (ap le_value word ∙ le_value-le_octets k w.value fits),
      back ∙ ap (drop k) c ∙ drop-append (le_octets k w.value) rest k width,
      buffer_get-IsWellFormed k wf e,
    )

get_words_step :
    (w : Word) (ws : List Word) (bp : Buffer) {bp1 bp2 : Buffer} {v : ℕ} {vs : List ℕ}
    → get_width w.width bp ≡ some (v, bp1)
    → get_words bp1 ws ≡ some (vs, bp2)
    → get_words bp (w ∷ ws) ≡ some (v ∷ vs, bp2)
unfolding get_words
get_words_step w ws bp e1 e2 = ground arith

get_words-contents :
    (ws : List Word) (rest : Octets) {bp : Buffer}
    → IsWellFormed bp
    → All Fits ws
    → contents bp ≡ encoding ws ++ rest
    → (bp' : Buffer) × (get_words bp ws ≡ some (values ws, bp')) × (contents bp' ≡ rest)
unfolding get_words
get_words-contents [] rest {bp} wf fits c = (bp, refl, c)
get_words-contents (w ∷ ws) rest {bp} wf (f, fs) c =
    let split = c ∙ append_assoc (le_octets (bytes_of w.width) w.value) (encoding ws) rest in
    let (bp1, e1, c1, wf1) = get_width-contents w (encoding ws ++ rest) wf f split in
    let (bp2, e2, c2) = get_words-contents ws rest wf1 fs c1 in
    (bp2, get_words_step w ws bp e1 e2, c2)

-- Words of 8, 16, 32 and 64 bits written one after the other into a well-formed buffer with nothing to
-- read are read back by the readers of the same widths in the same order, each with the value written,
-- and nothing is left.
pub get_words-put_words :
    (ws : List Word) (bp bp' : Buffer)
    → IsWellFormed bp
    → All Fits ws
    → contents bp ≡ []
    → put_words bp ws ≡ some bp'
    → (bp'' : Buffer) × (get_words bp' ws ≡ some (values ws, bp'')) × (contents bp'' ≡ [])
get_words-put_words ws bp bp' wf fits c e =
    let (written, wf') = put_words-contents ws wf e in
    get_words-contents ws [] wf' fits
      (written ∙ ap (λ t. t ++ encoding ws) c ∙ sym (append-nil (encoding ws)))
