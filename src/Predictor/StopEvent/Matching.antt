-- ===== src/Predictor/StopEvent/Matching.antt =====
-- The text of a stop event, and what it matches.
use pcr_oracle.Common.{
  ℕ, zero, suc, ◌+◌, ◌-◌, ◌<◌, ◌≡◌, ◌≢◌, ◌↔◌, ◌⊎◌, inl, inr, refl, sym, ap, ap₂, ◌∙◌, Bool, true,
  false, ◌&&◌, some, [], ◌∷◌, ◌++◌, ltb, ◌==◌, if◌then◌else◌, arith, length, take, drop, get_or,
  All, length-append, Bool-cases,
}
use pcr_oracle.Common.Bytes.{CString, octets_eq, octets_eq→eq, octets_eq_refl, isalpha}
use pcr_oracle.Common.Text.{split_at-append}
use pcr_oracle.Common.Outcome.{ok, ◌>>=◌, >>=-eq-ok}
use pcr_oracle.Predictor.StopEvent.{stop_event_parse, from_letter, command_matches, file_matches}

-- No byte of the name is `=`.
abbrev pub NoEquals : ℕ → Type 0
NoEquals c = c ≢ b'='

-- `NAME=VALUE`, with a NAME that is not empty and has no `=`, is read as NAME and VALUE, whatever VALUE
-- holds.
pub stop_event_parse_lem :
    (name value : CString)
    → All NoEquals name
    → name ≢ []
    → stop_event_parse (name ++ b'=' ∷ value) ≡ some (name, some value)
unfolding stop_event_parse
stop_event_parse_lem [] value h ne = absurd (ne refl)
stop_event_parse_lem (c ∷ name) value h ne =
    rw (split_at-append b'=' (c ∷ name) value h, stop_event_parse)

-- A text around its character number `n`.
around : (n : ℕ) (s : CString) → n < length s → s ≡ take n s ++ (get_or s n 0 ∷ drop (suc n) s)
around zero (c ∷ s) h = refl
around (suc n) (c ∷ s) h = ap (λ t. c ∷ t) (around n s (omega arith))
around n [] h = elim h [ ]

get_or-append : (dir value : CString) (c : ℕ) → get_or (dir ++ (c ∷ value)) (length dir) 0 ≡ c
get_or-append [] value c = refl
get_or-append (d ∷ dir) value c = get_or-append dir value c

drop-suc_append :
    (dir value : CString) (c : ℕ) → drop (suc (length dir)) (dir ++ (c ∷ value)) ≡ value
drop-suc_append [] value c = refl
drop-suc_append (d ∷ dir) value c = drop-suc_append dir value c

abbrev is_last_part : CString → CString → Bool
is_last_part path value =
    ltb (length value) (length path)
    && (get_or path (length path - length value - 1) 0 == b'/'
        && octets_eq value (drop (length path - length value) path))

is_last_part-split :
    (path value : CString)
    → is_last_part path value ≡ true
    → path ≡ take (length path - length value - 1) path ++ (b'/' ∷ value)
is_last_part-split path value h =
    let longer : length value < length path = ground arith in
    let slash : get_or path (length path - length value - 1) 0 ≡ b'/' = ground arith in
    let same : octets_eq value (drop (length path - length value) path) ≡ true = ground arith in
    let n : ℕ = length path - length value - 1 in
    let next : suc n ≡ length path - length value = omega arith in
    around n path (omega arith)
    ∙ ap₂ (λ c t. take n path ++ (c ∷ t)) slash
        (ap (λ k. drop k path) next
          ∙ sym (octets_eq→eq value (drop (length path - length value) path) same))

append-is_last_part : (dir value : CString) → is_last_part (dir ++ (b'/' ∷ value)) value ≡ true
append-is_last_part dir value =
    let path : CString = dir ++ (b'/' ∷ value) in
    let len : length path ≡ length dir + suc (length value) = length-append dir (b'/' ∷ value) in
    let at : length path - length value - 1 ≡ length dir = omega (arith, len) in
    let behind : length path - length value ≡ suc (length dir) = omega (arith, len) in
    let slash : get_or path (length path - length value - 1) 0 ≡ b'/' =
      ap (λ k. get_or path k 0) at ∙ get_or-append dir value b'/' in
    let tail : drop (length path - length value) path ≡ value =
      ap (λ k. drop k path) behind ∙ drop-suc_append dir value b'/' in
    let same : octets_eq value (drop (length path - length value) path) ≡ true =
      rw tail (octets_eq_refl value) in
    ground arith

-- A grub file matches exactly if its path is the value, or ends with a `/` and the value.
pub file_matches_iff :
    (path value : CString)
    → (file_matches path value ≡ true)
      ↔ ((path ≡ value) ⊎ ((dir : CString) × (path ≡ dir ++ (b'/' ∷ value))))
unfolding file_matches
file_matches_iff path value = (to, from)
  where
    to :
        (if is_last_part path value then true else octets_eq path value) ≡ true
        → (path ≡ value) ⊎ ((dir : CString) × (path ≡ dir ++ (b'/' ∷ value)))
    to h = elim (Bool-cases (is_last_part path value)) [
      | inl e ↦ inr (take (length path - length value - 1) path, is_last_part-split path value e)
      | inr e ↦ inl (octets_eq→eq path value (ground (arith, e)))
    ]

    from :
        (path ≡ value) ⊎ ((dir : CString) × (path ≡ dir ++ (b'/' ∷ value)))
        → (if is_last_part path value then true else octets_eq path value) ≡ true
    from (inl e) =
        let same : octets_eq path value ≡ true = rw e (octets_eq_refl value) in ground arith
    from (inr (dir, e)) =
        let last : is_last_part path value ≡ true =
          ap (λ t. is_last_part t value) e ∙ append-is_last_part dir value in
        rw last

abbrev pub NoLetter : ℕ → Type 0
NoLetter c = isalpha c ≡ false

-- The command of grub's first word: a word of characters that are no letters, then the value, which
-- begins with a letter.
from_letter_lem :
    (front value : CString) (c : ℕ)
    → All NoLetter front
    → isalpha c ≡ true
    → from_letter (front ++ (c ∷ value)) ≡ ok (c ∷ value)
unfolding from_letter
from_letter_lem [] value c h e = rw e
from_letter_lem (f ∷ front) value c (n, h) e = rw n (from_letter_lem front value c h e)

from_letter-split :
    (arg cmd : CString)
    → from_letter arg ≡ ok cmd
    → (front : CString) × (arg ≡ front ++ cmd) × All NoLetter front
unfolding from_letter
from_letter-split [] cmd h = cc
from_letter-split (c ∷ arg) cmd h = elim (Bool-cases (isalpha c)) [
  | inl e ↦ let same : c ∷ arg ≡ cmd = ground (arith, e) in ([], same, tt)
  | inr e ↦
      let rest : from_letter arg ≡ ok cmd = ground (arith, e) in
      let (front, split, none_there) = from_letter-split arg cmd rest in
      (c ∷ front, ap (λ t. c ∷ t) split, (e, none_there))
]

-- The first word of a grub command matches a value that begins with a letter exactly if it is the value
-- behind characters that are no letters.
pub command_matches_iff :
    (arg value : CString) (c : ℕ)
    → isalpha c ≡ true
    → (command_matches arg (c ∷ value) ≡ ok true)
      ↔ ((front : CString) × (arg ≡ front ++ (c ∷ value)) × All NoLetter front)
unfolding command_matches
command_matches_iff arg value c e = (to, from)
  where
    to :
        (from_letter arg >>= λ grub_cmd. ok (octets_eq grub_cmd (c ∷ value))) ≡ ok true
        → (front : CString) × (arg ≡ front ++ (c ∷ value)) × All NoLetter front
    to h =
        let (cmd, finds, same) =
          >>=-eq-ok (from_letter arg) (λ t. ok (octets_eq t (c ∷ value))) h in
        let equal : octets_eq cmd (c ∷ value) ≡ true = cc in
        let (front, split, none_there) = from_letter-split arg cmd finds in
        (front, split ∙ ap (λ t. front ++ t) (octets_eq→eq cmd (c ∷ value) equal), none_there)

    from :
        ((front : CString) × (arg ≡ front ++ (c ∷ value)) × All NoLetter front)
        → (from_letter arg >>= λ grub_cmd. ok (octets_eq grub_cmd (c ∷ value))) ≡ ok true
    from (front, split, none_there) =
        rw (split, from_letter_lem front value c none_there e, octets_eq_refl (c ∷ value))
