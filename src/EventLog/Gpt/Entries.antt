-- ===== src/EventLog/Gpt/Entries.antt =====
-- The entries in use that src/efi-gpt.c finds in a partition table.
use pcr_oracle.Common.{
  ℕ, zero, suc, ◌+◌, ◌*◌, ◌%◌, ◌≤◌, ◌<◌, ◌≡◌, ◌∙◌, refl, ap, sym, true, false, none, some, List, [],
  ◌∷◌, map, ltb, leb, if◌then◌else◌, arith, length, take, drop, All, length-append, length-take,
  length-drop, Bool-cases, inl, inr,
}
use native.Mathlib.Nat.{add-mul, suc-mul}
use pcr_oracle.Common.Bytes.{Octets, octets_eq}
use pcr_oracle.Common.Words.{u32_mod}
use pcr_oracle.Common.Outcome.{ok}
use pcr_oracle.Buffer.{Buffer, buffer_seek_read, buffer_read_pointer}
use pcr_oracle.Buffer.Writes.{joined}
use pcr_oracle.EventLog.Gpt.{empty_type, used_entries, add_entry, gpt_max_entries}

-- The `n` entries of a table from number `i` on.
abbrev pub entry_list : ℕ → ℕ → ℕ → Octets → List Octets
entry_list zero i size table = []
entry_list (suc n) i size table =
    take size (drop (i * size) table) ∷ entry_list n (i + 1) size table

-- The entries whose type is not all zero.
abbrev pub in_use : List Octets → List Octets
in_use [] = []
in_use (e ∷ es) =
    let rest = in_use es in if octets_eq (take 16 e) empty_type then rest else e ∷ rest

-- A table of whole entries that hold a type at least.
pub record IsTable (n size : ℕ) (bp : Buffer) : Type 0 where
  pub whole : n * size ≤ bp.wpos
  pub here : bp.wpos ≤ length bp.octets
  pub small : bp.wpos + 1024 < u32_mod
  pub has_type : 16 ≤ size

take-take : (k n : ℕ) (xs : Octets) → k ≤ n → take k (take n xs) ≡ take k xs
take-take zero n xs h = refl
take-take (suc k) zero xs h = absurd (omega arith)
take-take (suc k) (suc n) [] h = refl
take-take (suc k) (suc n) (x ∷ xs) h = ap (λ t. x ∷ t) (take-take k n xs (omega arith))

-- What the loop finds: pointers to the entries in use.
pub record IsFound (size : ℕ) (entries : List Octets) (ptrs : List Octets) : Type 0 where
  pub same : map (take size) ptrs ≡ in_use entries
  pub room : All (λ p. size ≤ length p) ptrs

-- An entry of the table, by its position.
abbrev at : ℕ → Buffer → Buffer
at pos bp = record bp { rpos = pos }

seek_lem :
    (pos : ℕ) (bp : Buffer)
    → pos ≤ bp.wpos
    → bp.wpos < u32_mod
    → buffer_seek_read bp (pos % u32_mod) ≡ some (at pos bp)
unfolding buffer_seek_read
seek_lem pos bp h small =
    let e : pos % u32_mod ≡ pos = omega arith in
    let inside : ltb bp.wpos pos ≡ false = ground arith in rw (e, inside) refl

in_use-unused :
    (e : Octets) (es : List Octets)
    → octets_eq (take 16 e) empty_type ≡ true
    → in_use (e ∷ es) ≡ in_use es
in_use-unused e es h = rw h refl

in_use-used :
    (e : Octets) (es : List Octets)
    → octets_eq (take 16 e) empty_type ≡ false
    → in_use (e ∷ es) ≡ e ∷ in_use es
in_use-used e es h = rw h refl

-- A step of the loop: where it reads, and the rest of the table.
record IsStep (n i size : ℕ) (bp : Buffer) : Type 0 where
  rest : IsTable (i + 1 + n) size (at (i * size) bp)
  long : size ≤ length (drop (i * size) bp.octets)
  enough : leb 16 (length (drop (i * size) bp.octets)) ≡ true
  seek : buffer_seek_read bp (i * size % u32_mod) ≡ some (at (i * size) bp)
  same_type : take 16 (take size (drop (i * size) bp.octets)) ≡ take 16 (drop (i * size) bp.octets)

step_lem : (n i size : ℕ) (bp : Buffer) → IsTable (i + suc n) size bp → IsStep n i size bp
step_lem n i size bp t =
    let pos = i * size in
    let ends : pos + size ≤ bp.wpos =
      omega (arith, t.whole, add-mul i (suc n) size, suc-mul n size) in
    let next : i + 1 + n ≡ i + suc n = omega arith in
    let ptr = drop pos bp.octets in
    let long : size ≤ length ptr = omega (arith, length-drop pos bp.octets, t.here) in
    record {
      rest = record {
        whole = rw next t.whole;
        here = t.here;
        small = t.small;
        has_type = t.has_type;
      };
      long = long;
      enough = ground (arith, t.has_type, long);
      seek = seek_lem pos bp (omega (arith, ends)) (omega (arith, t.small));
      same_type = take-take 16 size ptr t.has_type;
    }

pub used_entries_lem :
    (n i size found : ℕ) (bp : Buffer)
    → IsTable (i + n) size bp
    → found + length (in_use (entry_list n i size bp.octets)) ≤ gpt_max_entries
    → (ptrs : List Octets) × (used_entries n i size found bp ≡ ok (some ptrs))
      × IsFound size (entry_list n i size bp.octets) ptrs
unfolding used_entries buffer_read_pointer add_entry
used_entries_lem zero i size found bp t few = ([], refl, record { same = refl; room = tt })
used_entries_lem (suc n) i size found bp t few =
    let s = step_lem n i size bp t in
    let ptr = drop (i * size) bp.octets in
    let es = entry_list n (i + 1) size bp.octets in
    elim (Bool-cases (octets_eq (take 16 ptr) empty_type)) [
      | inl z ↦
          let unused =
            in_use-unused (take size ptr) es (ap (λ b. octets_eq b empty_type) s.same_type ∙ z) in
          let (ptrs, runs, f) =
            used_entries_lem n (i + 1) size found (at (i * size) bp) s.rest
              (omega (arith, few, ap length unused)) in
          (
            ptrs,
            rw (s.seek, s.enough, z) runs,
            record { same = f.same ∙ sym unused; room = f.room },
          )
      | inr z ↦
          let used =
            in_use-used (take size ptr) es (ap (λ b. octets_eq b empty_type) s.same_type ∙ z) in
          let below : leb gpt_max_entries found ≡ false = ground (arith, few, ap length used) in
          let (ptrs, runs, f) =
            used_entries_lem n (i + 1) size (found + 1) (at (i * size) bp) s.rest
              (omega (arith, few, ap length used)) in
          (
            ptr ∷ ptrs,
            rw (s.seek, s.enough, z, below, runs) refl,
            record {
              same = ap (λ t. take size ptr ∷ t) f.same ∙ sym used;
              room = (s.long, f.room);
            },
          )
    ]

-- With more than 64 entries in use the loop gives up.
pub used_entries-too_many :
    (n i size found : ℕ) (bp : Buffer)
    → IsTable (i + n) size bp
    → gpt_max_entries < found + length (in_use (entry_list n i size bp.octets))
    → found ≤ gpt_max_entries
    → used_entries n i size found bp ≡ ok none
unfolding used_entries buffer_read_pointer add_entry
used_entries-too_many zero i size found bp t many few = absurd (omega arith)
used_entries-too_many (suc n) i size found bp t many few =
    let s = step_lem n i size bp t in
    let ptr = drop (i * size) bp.octets in
    let es = entry_list n (i + 1) size bp.octets in
    elim (Bool-cases (octets_eq (take 16 ptr) empty_type)) [
      | inl z ↦
          let unused =
            in_use-unused (take size ptr) es (ap (λ b. octets_eq b empty_type) s.same_type ∙ z) in
          rw (s.seek, s.enough, z)
            (used_entries-too_many n (i + 1) size found (at (i * size) bp) s.rest
              (omega (arith, many, ap length unused)) few)
      | inr z ↦
          let used =
            in_use-used (take size ptr) es (ap (λ b. octets_eq b empty_type) s.same_type ∙ z) in
          elim (Bool-cases (leb gpt_max_entries found)) [
            | inl full ↦ rw (s.seek, s.enough, z, full) refl
            | inr below ↦
                let rest =
                  used_entries-too_many n (i + 1) size (found + 1) (at (i * size) bp) s.rest
                    (omega (arith, many, ap length used)) (ground (arith, below)) in
                rw (s.seek, s.enough, z, below, rest) refl
          ]
    ]

pub joined-in_use :
    (n i size : ℕ) (table : Octets)
    → length (joined (in_use (entry_list n i size table))) ≤ n * size
unfolding joined
joined-in_use zero i size table = omega arith
joined-in_use (suc n) i size table =
    let e = take size (drop (i * size) table) in
    let es = entry_list n (i + 1) size table in
    let rest = joined-in_use n (i + 1) size table in
    elim (Bool-cases (octets_eq (take 16 e) empty_type)) [
      | inl z ↦
          omega (arith, rest, suc-mul n size, ap (λ t. length (joined t)) (in_use-unused e es z))
      | inr z ↦ omega (
        arith,
        rest,
        suc-mul n size,
        ap (λ t. length (joined t)) (in_use-used e es z),
        length-append e (joined (in_use es)),
        length-take size (drop (i * size) table),
      )
    ]
