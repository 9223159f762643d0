-- ===== src/Util/Tests.antt =====
-- Runs of the octet strings, and the theorem at concrete inputs.
use pcr_oracle.Digest.{TpmEvdigest, algo_entry, digest_by_name, value_of}
use pcr_oracle.Util.Digests.{parse_digest, parse_digest-print_hex_string_buffer}
use pcr_oracle.Common.{length, true, ◌≡◌, refl, [], ◌∷◌, arith, replicate}
use pcr_oracle.Common.Bytes.{IsByte, Octets, CString, codes, octets_eq}
use pcr_oracle.Common.Outcome.{ok}
use pcr_oracle.Util.Masks.{
  parse_pcr_mask, parse_items, parse_item, strtoul, set_range, pcr_mask_set,
}
use pcr_oracle.Util.Masks.Items.{MaskItem, any_selects, text_of, parse_pcr_mask-text_of}
use pcr_oracle.Common.{length, zero, suc, All, ℕ, some, List}
use pcr_oracle.Common.Bits.{test_bit}
use pcr_oracle.Util.Paths.{
  path_unix2dos, path_dos2unix, path_has_file_extension, NoSlash, NoBackslash,
  path_dos2unix-path_unix2dos,
}
use pcr_oracle.Util.Versions.{
  parsed_version_compare, version_order, negative, parsed_version_compare_lem,
}
use pcr_oracle.Util.Hex.{
  parse_octet_string, print_hex_string_buffer, parse_octet_string-print_hex_string_buffer,
}

print_runs : print_hex_string_buffer (0x00 ∷ 0xaf ∷ []) 5 ≡ ok (codes "00af")
unfolding print_hex_string_buffer
print_runs = refl

abbrev four_ones : Octets
four_ones = replicate 4 1

parse_octet_string-print_hex_string_buffer_example :
    (s : CString) × (print_hex_string_buffer (0x00 ∷ 0xaf ∷ []) 5 ≡ ok s)
    × (parse_octet_string s four_ones 4 ≡ (2, 0x00 ∷ 0xaf ∷ 1 ∷ 1 ∷ []))
parse_octet_string-print_hex_string_buffer_example =
    parse_octet_string-print_hex_string_buffer (0x00 ∷ 0xaf ∷ []) four_ones 5 4
      (omega arith, (omega arith, tt)) (omega arith) (omega arith) (omega arith)

backslashes_run : path_unix2dos (codes "/a/b") ≡ ok (b'\x5c' ∷ b'a' ∷ b'\x5c' ∷ b'b' ∷ [])
unfolding path_unix2dos
backslashes_run = refl

extension_run : path_has_file_extension (codes "/EFI/x.EFI") (codes ".efi") ≡ true
unfolding path_has_file_extension
extension_run = refl

path_dos2unix-path_unix2dos_example :
    (dos : CString) × (path_unix2dos (codes "/a/b") ≡ ok dos)
    × All NoSlash dos
    × (length dos ≡ 4)
    × (All NoBackslash (codes "/a/b") → path_dos2unix dos ≡ ok (codes "/a/b"))
path_dos2unix-path_unix2dos_example = path_dos2unix-path_unix2dos (codes "/a/b") (omega arith)

prefix_run : parsed_version_compare (4 ∷ 1 ∷ []) (4 ∷ 1 ∷ 2 ∷ []) ≡ negative
unfolding parsed_version_compare
prefix_run = refl

parsed_version_compare_lem_example :
    parsed_version_compare (4 ∷ 1 ∷ []) (4 ∷ 0 ∷ 2 ∷ [])
    ≡ version_order (4 ∷ 1 ∷ []) (4 ∷ 0 ∷ 2 ∷ [])
parsed_version_compare_lem_example =
    parsed_version_compare_lem (4 ∷ 1 ∷ []) (4 ∷ 0 ∷ 2 ∷ []) (omega arith) (omega arith)
      (omega arith, (omega arith, tt)) (omega arith, (omega arith, (omega arith, tt)))

singles_run : parse_pcr_mask (codes "0,2-4,7") ≡ some (ok (true, 0x9d))
unfolding parse_pcr_mask parse_items parse_item strtoul set_range pcr_mask_set octets_eq
singles_run = refl

abbrev two_ranges : List MaskItem
two_ranges = record { first = 2; last = 4 } ∷ record { first = 9; last = 14 } ∷ []

parse_pcr_mask-text_of_example :
    (mask : ℕ) × (parse_pcr_mask (text_of two_ranges) ≡ some (ok (true, mask)))
    × ((b : ℕ) → test_bit mask b ≡ any_selects two_ranges b)
parse_pcr_mask-text_of_example = parse_pcr_mask-text_of two_ranges (
  record { ordered = omega arith; below = omega arith },
  (record { ordered = omega arith; below = omega arith }, tt),
)

parse_digest-print_hex_string_buffer_example :
    (s : CString) × (print_hex_string_buffer (replicate 20 0xab) 41 ≡ ok s)
    × (md : TpmEvdigest) × (parse_digest s (codes "sha1") ≡ ok (some md))
    × (md.algo ≡ some (algo_entry 4 (codes "sha1") 20))
    × (value_of md ≡ replicate 20 0xab)
parse_digest-print_hex_string_buffer_example =
    parse_digest-print_hex_string_buffer (codes "sha1") (algo_entry 4 (codes "sha1") 20)
      (replicate 20 0xab) 41 (unfold digest_by_name in refl) twenty_bytes refl (omega arith)
      (omega arith)
  where
    all_bytes : (n : ℕ) → All IsByte (replicate n 0xab)
    all_bytes zero = tt
    all_bytes (suc n) = (omega arith, all_bytes n)

    twenty_bytes : All IsByte (replicate 20 0xab)
    twenty_bytes = all_bytes 20
