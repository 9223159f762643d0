-- ===== src/Util/Paths.antt =====
-- `path_unix2dos`, `path_dos2unix` and `path_has_file_extension` of src/util.c.
use pcr_oracle.Common.{
  ℕ, suc, ◌-◌, ◌<◌, ◌≡◌, ◌≢◌, refl, ap, Bool, false, not, [], ◌∷◌, leb, ltb, ◌==◌, if◌then◌else◌,
  arith, length, drop, get_or, All,
}
use pcr_oracle.Common.Bytes.{CString, case_eq}
use pcr_oracle.Common.Outcome.{Outcome, ok, ◌>>◌, fatal_if}

-- PATH_MAX of Linux.
abbrev pub path_max : ℕ
path_max = 4096

-- The loop over the copy.
replaced : ℕ → ℕ → CString → CString
replaced from to [] = []
replaced from to (c ∷ s) = (if c == from then to else c) ∷ replaced from to s

unfoldable pub path_unix2dos : CString → Outcome CString
unfolding replaced
path_unix2dos path = do fatal_if (leb path_max (length path)); ok (replaced b'/' b'\x5c' path)

unfoldable pub path_dos2unix : CString → Outcome CString
unfolding replaced
path_dos2unix path = do fatal_if (leb path_max (length path)); ok (replaced b'\x5c' b'/' path)

-- `if (*suffix == '.') ++suffix;`
without_dot : CString → CString
without_dot [] = []
without_dot (c ∷ suffix) = if c == b'.' then suffix else c ∷ suffix

-- The test behind it; `n` is an int, which is positive exactly if the path is longer.
has_extension : CString → CString → Bool
unfolding case_eq
has_extension path suffix =
    let n = length path - length suffix in
    if not (ltb 0 n)
    then false
    else if not (get_or path (n - 1) 0 == b'.')
    then false
    else case_eq (drop n path) suffix

unfoldable pub path_has_file_extension : CString → CString → Bool
unfolding has_extension without_dot
path_has_file_extension path suffix = has_extension path (without_dot suffix)

abbrev pub NoBackslash : ℕ → Type 0
NoBackslash c = c ≢ b'\x5c'

replaced-replaced :
    (path : CString)
    → All NoBackslash path
    → replaced b'\x5c' b'/' (replaced b'/' b'\x5c' path) ≡ path
unfolding replaced
replaced-replaced [] h = refl
replaced-replaced (c ∷ path) (n, h) = ground (arith, replaced-replaced path h)

length-replaced : (from to : ℕ) (path : CString) → length (replaced from to path) ≡ length path
unfolding replaced
length-replaced from to [] = refl
length-replaced from to (c ∷ path) = ap suc (length-replaced from to path)

abbrev pub NoSlash : ℕ → Type 0
NoSlash c = c ≢ b'/'

replaced-NoSlash : (path : CString) → All NoSlash (replaced b'/' b'\x5c' path)
unfolding replaced
replaced-NoSlash [] = tt
replaced-NoSlash (c ∷ path) = (ground arith, replaced-NoSlash path)

-- A path of fewer than 4096 bytes is turned into one of as many bytes without a slash, and, where the
-- path has no backslash, that is turned back into the same path.
pub path_dos2unix-path_unix2dos :
    (path : CString)
    → length path < path_max
    → (dos : CString) × (path_unix2dos path ≡ ok dos)
      × All NoSlash dos
      × (length dos ≡ length path)
      × (All NoBackslash path → path_dos2unix dos ≡ ok path)
unfolding path_unix2dos path_dos2unix
path_dos2unix-path_unix2dos path short =
    let fits : leb path_max (length path) ≡ false = ground arith in
    (
      replaced b'/' b'\x5c' path,
      rw fits refl,
      replaced-NoSlash path,
      length-replaced b'/' b'\x5c' path,
      λ h. rw (length-replaced b'/' b'\x5c' path, fits, replaced-replaced path h) refl,
    )
