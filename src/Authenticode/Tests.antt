-- ===== src/Authenticode/Tests.antt =====
-- Runs of src/authenticode.c, and the theorems at concrete inputs.
use pcr_oracle.Common.{ℕ, ◌≡◌, refl, some, [], ◌∷◌, arith, replicate}
use pcr_oracle.Common.Outcome.{ok, Ends}
use pcr_oracle.Buffer.{Buffer}
use pcr_oracle.Digest.{DigestCtx, digest_ctx_new}
use pcr_oracle.Digest.Sample.{first_bytes, first_bytes-IsStreaming, sha256, sha256-IsSupported}
use pcr_oracle.Authenticode.{
  PecoffPlacement, AuthenticodeImageInfo, authenticode_finalize, punch_holes, punch, punch_area,
  trim, pecoff_placement_compare, authenticode_compute,
}
use pcr_oracle.Authenticode.Ranges.{IsLaidOut, IsFinal, authenticode_finalize-IsFinal}
use pcr_oracle.Authenticode.Digests.{IsFile, IsDigested, authenticode_compute_lem}
use pcr_oracle.Authenticode.Sample.{insertion_sort, insertion_sort-IsSort}

abbrev range : ℕ → ℕ → PecoffPlacement
range addr size = record { addr = addr; size = size }

-- A section in front of the headers in the table, and a hole in each of the two.
abbrev two_areas : AuthenticodeImageInfo
two_areas = record {
  auth_range = range 0 18;
  hashed_bytes = 18;
  hole = range 14 2 ∷ range 3 2 ∷ [];
  area = range 10 10 ∷ range 0 8 ∷ [];
}

abbrev four_areas : AuthenticodeImageInfo
four_areas = record {
  auth_range = range 0 18;
  hashed_bytes = 18;
  hole = range 3 2 ∷ range 14 2 ∷ [];
  area = range 0 3 ∷ range 5 3 ∷ range 10 4 ∷ range 16 2 ∷ [];
}

finalize_runs : authenticode_finalize insertion_sort two_areas ≡ ok four_areas
unfolding authenticode_finalize punch_holes punch punch_area trim pecoff_placement_compare
    insertion_sort
finalize_runs = refl

two_areas-IsLaidOut : IsLaidOut two_areas
two_areas-IsLaidOut = record {
  holes_bounded = (omega arith, (omega arith, tt));
  areas_bounded = (omega arith, (omega arith, tt));
  count = omega arith;
}

authenticode_finalize-IsFinal_example :
    Ends (IsFinal two_areas) (authenticode_finalize insertion_sort two_areas)
authenticode_finalize-IsFinal_example =
    authenticode_finalize-IsFinal insertion_sort two_areas insertion_sort-IsSort two_areas-IsLaidOut

abbrev image : Buffer
image = record { rpos = 0; wpos = 20; size = 20; octets = replicate 20 7 }

image-IsFile : IsFile image
image-IsFile = record { here = omega arith; small = omega arith }

authenticode_compute_lem_example :
    (ctx : DigestCtx first_bytes) × (digest_ctx_new first_bytes sha256 ≡ ok (some ctx))
    × Ends
        (IsDigested first_bytes first_bytes-IsStreaming two_areas image tt)
        (authenticode_compute insertion_sort first_bytes two_areas image ctx)
authenticode_compute_lem_example =
    authenticode_compute_lem first_bytes first_bytes-IsStreaming insertion_sort sha256 tt two_areas
      image insertion_sort-IsSort sha256-IsSupported two_areas-IsLaidOut image-IsFile (omega arith)
