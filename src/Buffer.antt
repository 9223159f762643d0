-- ===== src/Buffer.antt =====
-- src/bufparser.h: a byte buffer with a read and a write position.
-- A C function that returns `bool` and changes `*bp` is a function into `Option`: `none` is `false`,
-- which leaves the buffer as it is. buffer_put_utf16le may also write past its memory.
pub mod Invariant
pub mod Contents
pub mod RoundTrip
pub mod Writes
mod Tests
use pcr_oracle.Common.{
  ℕ, ◌+◌, ◌-◌, ◌*◌, ◌/◌, ◌%◌, Bool, true, false, Option, none, some, List, [], ◌∷◌, ◌++◌, ltb, ◌==◌,
  if◌then◌else◌, length, take, drop, replicate,
}
use pcr_oracle.Common.Bytes.{Octets}
use pcr_oracle.Common.Outcome.{Outcome, ok, ◌>>=◌, ◌>>◌, defined_if}
use pcr_oracle.Common.Words.{sub64, u32_mod, u64_mod, le_value, le_octets}

-- `octets` is the memory from the pointer `data` on.
pub record Buffer : Type 0 where
  pub rpos : ℕ
  pub wpos : ℕ
  pub size : ℕ
  pub octets : Octets

unfoldable pub buffer_init_read : Octets → ℕ → Buffer
buffer_init_read memory len = record { rpos = 0; wpos = len; size = len; octets = memory }

unfoldable pub buffer_skip : Buffer → ℕ → Option Buffer
buffer_skip bp count =
    if ltb (sub64 bp.wpos bp.rpos) count
    then none
    else some (record bp { rpos = (bp.rpos + count) % u64_mod })

-- The bytes at `data + rpos`.
unfoldable pub buffer_read_pointer : Buffer → Octets
buffer_read_pointer bp = drop bp.rpos bp.octets

-- The difference is a `size_t`, the result an `unsigned int`.
unfoldable pub buffer_available : Buffer → ℕ
buffer_available bp = sub64 bp.wpos bp.rpos % u32_mod

unfoldable pub buffer_eof : Buffer → Bool
unfolding buffer_available
buffer_eof bp = buffer_available bp == 0

unfoldable pub buffer_seek_read : Buffer → ℕ → Option Buffer
buffer_seek_read bp new_pos =
    if ltb bp.wpos new_pos then none else some (record bp { rpos = new_pos })

unfoldable pub buffer_get : Buffer → ℕ → Option (Octets × Buffer)
buffer_get bp count =
    if ltb (sub64 bp.wpos bp.rpos) count
    then none
    else some
        (take count (drop bp.rpos bp.octets), record bp { rpos = (bp.rpos + count) % u64_mod })

-- `buffer_get` into a variable of `k` bytes, read on a little-endian host.
abbrev read_word : ℕ → Buffer → Option (ℕ × Buffer)
read_word k bp = elim (buffer_get bp k) [ none ↦ none | some (bs, bp') ↦ some (le_value bs, bp') ]

unfoldable pub buffer_get_u8 : Buffer → Option (ℕ × Buffer)
buffer_get_u8 bp = read_word 1 bp

unfoldable pub buffer_get_u16le : Buffer → Option (ℕ × Buffer)
buffer_get_u16le bp = read_word 2 bp

unfoldable pub buffer_get_u32le : Buffer → Option (ℕ × Buffer)
buffer_get_u32le bp = read_word 4 bp

unfoldable pub buffer_get_u64le : Buffer → Option (ℕ × Buffer)
buffer_get_u64le bp = read_word 8 bp

-- `sizeof(size_t)` is 8.
unfoldable pub buffer_get_size : Buffer → Option (ℕ × Buffer)
unfolding buffer_get_u64le
buffer_get_size bp = buffer_get_u64le bp

-- The new buffer is a view of the same memory; no code writes through such a view.
unfoldable pub buffer_get_buffer : Buffer → ℕ → Option (Buffer × Buffer)
unfolding buffer_init_read
buffer_get_buffer bp count =
    if ltb (sub64 bp.wpos bp.rpos) count
    then none
    else some (
      buffer_init_read (drop bp.rpos bp.octets) count,
      record bp { rpos = (bp.rpos + count) % u64_mod },
    )

unfoldable pub buffer_init_write : Octets → ℕ → Buffer
buffer_init_write memory len = record { rpos = 0; wpos = 0; size = len; octets = memory }

-- `(size + 7) & ~7UL`; `buffer_init_write` takes the size as an `unsigned int`. What malloc() left in
-- the memory is an argument.
unfoldable pub buffer_alloc_write : (ℕ → Octets) → ℕ → Buffer
unfolding buffer_init_write
buffer_alloc_write malloc size =
    let rounded = (size + 7) % u64_mod / 8 * 8 in
    buffer_init_write (malloc rounded) (rounded % u32_mod)

unfoldable pub buffer_tailroom : Buffer → ℕ
buffer_tailroom bp = sub64 bp.size bp.wpos % u32_mod

-- memcpy() to `data + pos`.
abbrev pub overwrite : Octets → ℕ → Octets → Octets
overwrite memory pos src = take pos memory ++ (src ++ drop (pos + length src) memory)

unfoldable pub buffer_put : Buffer → Octets → Option Buffer
buffer_put bp src =
    if ltb (sub64 bp.size bp.wpos) (length src)
    then none
    else some (record bp {
      wpos = (bp.wpos + length src) % u64_mod;
      octets = overwrite bp.octets bp.wpos src;
    })

unfoldable pub buffer_put_u8 : Buffer → ℕ → Option Buffer
buffer_put_u8 bp value = buffer_put bp (le_octets 1 value)

unfoldable pub buffer_put_u16le : Buffer → ℕ → Option Buffer
buffer_put_u16le bp value = buffer_put bp (le_octets 2 value)

unfoldable pub buffer_put_u32le : Buffer → ℕ → Option Buffer
buffer_put_u32le bp value = buffer_put bp (le_octets 4 value)

unfoldable pub buffer_put_u64le : Buffer → ℕ → Option Buffer
buffer_put_u64le bp value = buffer_put bp (le_octets 8 value)

unfoldable pub buffer_put_size : Buffer → ℕ → Option Buffer
unfolding buffer_put_u64le
buffer_put_size bp value = buffer_put_u64le bp value

-- Both buffers change: the source's read position and the target's memory and write position. Where
-- the source is too short the target is unchanged.
unfoldable pub buffer_copy : Buffer → ℕ → Buffer → Option (Buffer × Buffer)
unfolding buffer_tailroom buffer_get
buffer_copy src count dst =
    if ltb (buffer_tailroom dst) count then none else elim (buffer_get src count) [
      | none ↦ none
      | some (bs, src') ↦ some (
        src',
        record dst {
          wpos = (dst.wpos + count) % u64_mod;
          octets = overwrite dst.octets dst.wpos bs;
        },
      )
    ]

-- The result, which may be NULL, and the buffer. `convert_from_utf16le` is iconv() on so many bytes of
-- memory, which was not initialized behind the bytes that were read; it gives the text up to the NUL
-- and `none` where it fails. `buffer_get` takes the count as an `unsigned int`.
unfoldable pub buffer_get_utf16le :
    (convert_from_utf16le : ℕ → Octets → Option Octets) → Buffer → ℕ → Option Octets × Buffer
buffer_get_utf16le convert_from_utf16le bp len = elim (buffer_get bp (2 * len % u32_mod)) [
  | none ↦ (none, bp)
  | some (utf16, bp') ↦ (convert_from_utf16le (2 * len % u64_mod) utf16, bp')
]

-- Behind the text that iconv() stores in `size` bytes of memory goes a NUL, for which there is no room
-- if the text fills them; what is put is the whole memory.
unfoldable pub put_converted :
    (ℕ → Octets) → Buffer → ℕ → Option Octets → Outcome (Option (Buffer × ℕ))
put_converted malloc bp size none = ok none
put_converted malloc bp size (some utf16) = if ltb size (length utf16) then ok none else do
  defined_if (ltb (length utf16) size)
  elim (buffer_put bp (overwrite (malloc size) 0 (utf16 ++ (0 ∷ [])))) [
    | none ↦ ok none
    | some bp' ↦ ok (some (bp', size))
  ]

-- The buffer and `*size_ret_p`. `convert_to_utf16le` is iconv() on the text, `none` where it fails.
unfoldable pub buffer_put_utf16le :
    (convert_to_utf16le : Octets → Option Octets)
    → (ℕ → Octets)
    → Buffer
    → Octets
    → Outcome (Option (Buffer × ℕ))
unfolding put_converted
buffer_put_utf16le convert_to_utf16le malloc bp utf8 =
    let len = length utf8 % u32_mod in
    put_converted malloc bp (2 * len % u32_mod) (convert_to_utf16le (take len utf8))
