-- ===== src/Buffer/Writes.antt =====
-- Ranges of bytes written into a buffer of src/bufparser.h one after the other.
use pcr_oracle.Common.{
  ℕ, ◌+◌, ◌*◌, ◌/◌, ◌%◌, ◌≤◌, ◌<◌, ◌≡◌, ◌∙◌, refl, ap, sym, Option, none, some, List, [], ◌∷◌, ◌++◌,
  arith, length, length-append, append_assoc, append-nil,
}
use pcr_oracle.Common.Bytes.{Octets}
use pcr_oracle.Common.Words.{u32_mod, u64_mod}
use pcr_oracle.Buffer.{Buffer, buffer_put, buffer_alloc_write, buffer_init_write}
use pcr_oracle.Buffer.Invariant.{IsWellFormed}
use pcr_oracle.Buffer.Contents.{contents, buffer_put_room}

-- A write, and what is done with the buffer where it fits.
unfoldable pub and_then : Option Buffer → (Buffer → Option Buffer) → Option Buffer
and_then none next = none
and_then (some bp) next = next bp

-- Several ranges written one after the other.
unfoldable pub put_all : List Octets → Buffer → Option Buffer
unfolding and_then
put_all [] bp = some bp
put_all (bs ∷ rest) bp = and_then (buffer_put bp bs) (put_all rest)

unfoldable pub joined : List Octets → Octets
joined [] = []
joined (bs ∷ rest) = bs ++ joined rest

pub put_all_room :
    (rest : List Octets) (bp : Buffer)
    → IsWellFormed bp
    → bp.wpos + length (joined rest) ≤ bp.size
    → (bp' : Buffer) × (put_all rest bp ≡ some bp')
      × (contents bp' ≡ contents bp ++ joined rest)
      × IsWellFormed bp'
      × (bp'.size ≡ bp.size)
unfolding put_all and_then joined
put_all_room [] bp w room = (bp, refl, sym (append-nil (contents bp)), w, refl)
put_all_room (bs ∷ rest) bp w room =
    let (bp1, e1, w1) = buffer_put_room bp bs w (omega (arith, length-append bs (joined rest))) in
    let (bp2, e2, c2, w2, s2) =
      put_all_room rest bp1 w1.well_formed
        (omega (arith, length-append bs (joined rest), w1.position, w1.same_size)) in
    (
      bp2,
      rw e1 e2,
      c2 ∙ ap (λ t. t ++ joined rest) w1.appended ∙ append_assoc (contents bp) bs (joined rest),
      w2,
      s2 ∙ w1.same_size,
    )

-- An allocated buffer has the room asked for, and nothing to read.
pub alloc_lem :
    (malloc : ℕ → Octets) (size : ℕ)
    → ((n : ℕ) → length (malloc n) ≡ n)
    → size + 8 < u32_mod
    → IsWellFormed (buffer_alloc_write malloc size)
      × (contents (buffer_alloc_write malloc size) ≡ [])
      × ((buffer_alloc_write malloc size).wpos ≡ 0)
      × (size ≤ (buffer_alloc_write malloc size).size)
      × ((buffer_alloc_write malloc size).size < u32_mod)
unfolding buffer_alloc_write buffer_init_write
alloc_lem malloc size sized small = (
  record {
    read_le = omega arith;
    write_le = omega arith;
    fits = omega (arith, sized ((size + 7) % u64_mod / 8 * 8));
    word = omega arith;
  },
  refl,
  refl,
  omega arith,
  omega arith,
)
