-- ===== src/Buffer/Contents.antt =====
-- The abstract view of a buffer: the queue of bytes that were written and not yet read.
use pcr_oracle.Common.{
  ℕ, ◌+◌, ◌-◌, ◌%◌, ◌≤◌, ◌<◌, ◌≡◌, ◌∙◌, refl, ap, sym, none, some, ◌++◌, arith, length, take, drop,
  length-append, length-take, length-drop, take-append, drop-append, drop-append_le, slice-take,
  take_all, drop-drop,
}
use mathlib.Core.List.{append_assoc}
use pcr_oracle.Common.Bytes.{Octets}
use pcr_oracle.Common.Words.{u64_mod}
use pcr_oracle.Buffer.{Buffer, buffer_get, buffer_put, buffer_init_read, overwrite}
use pcr_oracle.Buffer.Invariant.{IsWellFormed, buffer_put-IsWellFormed, buffer_get-IsWellFormed}

abbrev pub contents : Buffer → Octets
contents bp = drop bp.rpos (take bp.wpos bp.octets)

pub length-contents : {bp : Buffer} → IsWellFormed bp → length (contents bp) ≡ bp.wpos - bp.rpos
length-contents {bp} w =
    omega (arith, length-drop bp.rpos (take bp.wpos bp.octets), length-take bp.wpos bp.octets)

-- Writing appends to the queue.
pub buffer_put-contents :
    {bp : Buffer} (src : Octets) {bp' : Buffer}
    → IsWellFormed bp
    → buffer_put bp src ≡ some bp'
    → contents bp' ≡ contents bp ++ src
unfolding buffer_put
buffer_put-contents {bp} src {bp'} w h =
    let written : length (take bp.wpos bp.octets ++ src) ≡ bp'.wpos =
      ground (arith, length-append (take bp.wpos bp.octets) src, length-take bp.wpos bp.octets) in
    let memory : bp'.octets ≡ overwrite bp.octets bp.wpos src = ground arith in
    let same : bp'.rpos ≡ bp.rpos = ground arith in
    let front : bp.rpos ≤ length (take bp.wpos bp.octets) =
      omega (arith, length-take bp.wpos bp.octets) in
    rw
      (
        same,
        memory,
        ← append_assoc (take bp.wpos bp.octets) src (drop (bp.wpos + length src) bp.octets),
      )
      (rw
        (take-append (take bp.wpos bp.octets ++ src) (drop (bp.wpos + length src) bp.octets)
          bp'.wpos written)
        (drop-append_le bp.rpos (take bp.wpos bp.octets) src front))

-- Reading takes from the front of the queue.
pub buffer_get-contents :
    {bp : Buffer} (count : ℕ) {bs : Octets} {bp' : Buffer}
    → IsWellFormed bp
    → buffer_get bp count ≡ some (bs, bp')
    → (bs ≡ take count (contents bp)) × (contents bp' ≡ drop count (contents bp))
unfolding buffer_get
buffer_get-contents {bp} count {bs} {bp'} w h =
    let bytes : bs ≡ take count (drop bp.rpos bp.octets) = ground arith in
    let read : bp'.rpos ≡ bp.rpos + count = ground arith in
    let memory : bp'.octets ≡ bp.octets = ground arith in
    let end : bp'.wpos ≡ bp.wpos = ground arith in
    let room : bp.rpos + count ≤ bp.wpos = ground arith in
    (
      bytes ∙ sym (slice-take bp.rpos count bp.wpos bp.octets room),
      rw (read, memory, end) (sym (drop-drop count bp.rpos (take bp.wpos bp.octets))),
    )

-- Reading succeeds exactly if the queue holds that many bytes.
pub buffer_get_enough :
    {bp : Buffer} (count : ℕ)
    → IsWellFormed bp
    → count ≤ length (contents bp)
    → (r : Octets × Buffer) × (buffer_get bp count ≡ some r)
unfolding buffer_get
buffer_get_enough {bp} count w h = (
  (take count (drop bp.rpos bp.octets), record bp { rpos = (bp.rpos + count) % u64_mod }),
  ground (arith, length-contents w),
)

pub buffer_get_short :
    {bp : Buffer} (count : ℕ)
    → IsWellFormed bp
    → length (contents bp) < count
    → buffer_get bp count ≡ none
unfolding buffer_get
buffer_get_short {bp} count w h = ground (arith, length-contents w)

pub contents-buffer_init_read :
    (memory : Octets) → contents (buffer_init_read memory (length memory)) ≡ memory
unfolding buffer_init_read
contents-buffer_init_read memory = take_all memory (length memory) (omega arith)

-- What a write into the room of a buffer leaves.
pub record IsWritten (bp : Buffer) (src : Octets) (bp' : Buffer) : Type 0 where
  pub well_formed : IsWellFormed bp'
  pub appended : contents bp' ≡ contents bp ++ src
  pub position : bp'.wpos ≡ bp.wpos + length src
  pub same_size : bp'.size ≡ bp.size

pub buffer_put_room :
    (bp : Buffer) (src : Octets)
    → IsWellFormed bp
    → bp.wpos + length src ≤ bp.size
    → (bp' : Buffer) × (buffer_put bp src ≡ some bp') × IsWritten bp src bp'
unfolding buffer_put
buffer_put_room bp src w room =
    let bp' : Buffer = record bp {
      wpos = (bp.wpos + length src) % u64_mod;
      octets = overwrite bp.octets bp.wpos src;
    } in
    let puts : buffer_put bp src ≡ some bp' = ground arith in
    (
      bp',
      puts,
      record {
        well_formed = buffer_put-IsWellFormed src w puts;
        appended = buffer_put-contents src w puts;
        position = omega arith;
        same_size = refl;
      },
    )

-- Reading what stands in front.
pub buffer_get_front :
    {bp : Buffer} (bs rest : Octets)
    → IsWellFormed bp
    → contents bp ≡ bs ++ rest
    → (bp' : Buffer) × (buffer_get bp (length bs) ≡ some (bs, bp'))
      × IsWellFormed bp'
      × (contents bp' ≡ rest)
buffer_get_front {bp} bs rest w c =
    let enough : length bs ≤ length (contents bp) =
      omega (arith, ap length c, length-append bs rest) in
    let ((got, bp'), gets) = buffer_get_enough (length bs) w enough in
    let (front, back) = buffer_get-contents (length bs) w gets in
    let same : got ≡ bs = front ∙ ap (take (length bs)) c ∙ take-append bs rest (length bs) refl in
    (
      bp',
      gets ∙ ap (λ t. some (t, bp')) same,
      buffer_get-IsWellFormed (length bs) w gets,
      back ∙ ap (drop (length bs)) c ∙ drop-append bs rest (length bs) refl,
    )
