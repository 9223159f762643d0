-- ===== src/Authenticode/Digests.antt =====
-- What `authenticode_compute` of src/authenticode.c hashes.
use pcr_oracle.Common.{
  ℕ, ◌+◌, ◌-◌, ◌%◌, ◌≤◌, ◌<◌, ◌≡◌, ◌∙◌, refl, ap, sym, Bool, false, not, ◌&&◌, Option, some, List,
  [], ◌∷◌, ◌++◌, ltb, arith, length, take, drop, All, slice-take, length-take, append_assoc,
  append-nil,
}
use pcr_oracle.Common.Bytes.{Octets}
use pcr_oracle.Common.Words.{u32_mod, u64_mod}
use pcr_oracle.Common.Outcome.{ok, ◌>>=◌, Ends, Ends->>=}
use pcr_oracle.Buffer.{Buffer, buffer_seek_read, buffer_available, buffer_read_pointer}
use pcr_oracle.Digest.{
  TpmAlgoInfo, TpmEvdigest, DigestCtx, digest_ctx_new, digest_ctx_update, digest_ctx_final,
  value_of,
}
use pcr_oracle.Digest.Openssl.{Evp, IsStreaming}
use pcr_oracle.Digest.Compute.{
  IsSupported, digest_ctx_new_lem, fresh, digest_of, value_of-digest_of,
}
use pcr_oracle.Authenticode.{
  PecoffPlacement, AuthenticodeImageInfo, end_of, authenticode_finalize, hash_areas,
  authenticode_compute, final_of,
}
use pcr_oracle.Authenticode.Punch.{covers}
use pcr_oracle.Authenticode.Ranges.{IsSort, IsLaidOut, IsFinal, authenticode_finalize-IsFinal}
use pcr_oracle.Authenticode.Selected.{selected, slices, slices_from, selected_ext}

-- A file in memory, of fewer than 4 GB.
pub record IsFile (bp : Buffer) : Type 0 where
  pub here : bp.wpos ≤ length bp.octets
  pub small : bp.wpos < u32_mod

abbrev pub file_of : Buffer → Octets
file_of bp = take bp.wpos bp.octets

All-ends :
    (m n : ℕ) (xs : List PecoffPlacement)
    → m ≤ n
    → All (λ y. y.addr + y.size ≤ m) xs
    → All (λ y. y.addr + y.size ≤ n) xs
All-ends m n [] h k = tt
All-ends m n (x ∷ xs) h (k, ks) = (omega arith, All-ends m n xs h ks)

All-start : (xs : List PecoffPlacement) → All (λ y. 0 ≤ y.addr) xs
All-start [] = tt
All-start (x ∷ xs) = (omega arith, All-start xs)

module _ (evp : Evp) (laws : IsStreaming evp) where
  -- A context that has hashed some bytes, behind another with the value `md`.
  abbrev hashed : TpmEvdigest → evp.Ctx → Octets → DigestCtx evp
  hashed md c bs = record { mdctx = some (evp.digest_update c bs); md = md }

  slice_of :
      (bp : Buffer) (a : PecoffPlacement)
      → a.addr + a.size ≤ bp.wpos
      → take a.size (drop a.addr bp.octets) ≡ take a.size (drop a.addr (file_of bp))
  slice_of bp a h = sym (slice-take a.addr a.size bp.wpos bp.octets h)

  -- One round of the loop, on an area that lies in the file.
  hash_one :
      (a : PecoffPlacement) (areas : List PecoffPlacement) (bp : Buffer) (md : TpmEvdigest)
      (c : evp.Ctx) (before : Octets)
      → IsFile bp
      → a.addr + a.size ≤ bp.wpos
      → hash_areas evp bp (a ∷ areas) (hashed md c before)
        ≡ hash_areas evp
            (record bp { rpos = a.addr })
            areas
            (hashed md c (before ++ take a.size (drop a.addr (file_of bp))))
  unfolding hash_areas digest_ctx_update buffer_seek_read buffer_available buffer_read_pointer
  hash_one a areas bp md c before f h =
      let inside : ltb bp.wpos a.addr ≡ false = ground arith in
      let enough : ltb ((bp.wpos + u64_mod - a.addr) % u64_mod % u32_mod) a.size ≡ false =
        ground (arith, f.small) in
      rw
        (
          hash_areas,
          inside,
          enough,
          laws.update_twice c before (take a.size (drop a.addr bp.octets)),
          slice_of bp a h,
        )
        refl

  hash_areas_lem :
      (areas : List PecoffPlacement) (bp : Buffer) (md : TpmEvdigest) (c : evp.Ctx)
      (before : Octets)
      → IsFile bp
      → All (λ y. y.addr + y.size ≤ bp.wpos) areas
      → hash_areas evp bp areas (hashed md c before)
        ≡ ok (some (hashed md c (before ++ slices areas (file_of bp))))
  unfolding hash_areas slices
  hash_areas_lem [] bp md c before f h = rw (append-nil before) refl
  hash_areas_lem (a ∷ areas) bp md c before f (h, hs) =
      hash_one a areas bp md c before f h
      ∙ hash_areas_lem areas (record bp { rpos = a.addr }) md c
          (before ++ take a.size (drop a.addr (file_of bp)))
          (record { here = f.here; small = f.small }) hs
      ∙ ap (λ t. ok (some (hashed md c t)))
          (append_assoc before (take a.size (drop a.addr (file_of bp))) (slices areas (file_of bp)))

  -- A fresh context has hashed nothing.
  hash_fresh :
      (a : TpmAlgoInfo) (m : evp.Md) (areas : List PecoffPlacement) (bp : Buffer)
      → IsFile bp
      → All (λ y. y.addr + y.size ≤ bp.wpos) areas
      → hash_areas evp bp areas (fresh evp a m)
        ≡ ok (some (hashed (fresh evp a m).md (evp.digest_init m) (slices areas (file_of bp))))
  hash_fresh a m areas bp f h =
      ap (λ c. hash_areas evp bp areas (record { mdctx = some c; md = (fresh evp a m).md }))
        (sym (laws.update_none (evp.digest_init m)))
      ∙ hash_areas_lem areas bp (fresh evp a m).md (evp.digest_init m) [] f h

  final_lem :
      (a : TpmAlgoInfo) (m : evp.Md) (bs : Octets)
      → (digest_ctx_final evp (hashed (fresh evp a m).md (evp.digest_init m) bs)).1
        ≡ digest_of evp a m bs
  unfolding digest_ctx_final
  final_lem a m bs = rw (laws.one_range m bs) refl

  -- The positions that the image's areas cover, less its holes and what lies behind its range.
  abbrev pub is_authenticated : AuthenticodeImageInfo → ℕ → Bool
  is_authenticated info o =
      (covers info.area o && not (covers info.hole o)) && ltb o (end_of info.auth_range)

  -- The digest of the authenticated bytes.
  pub record IsDigested (info : AuthenticodeImageInfo) (bp : Buffer) (m : evp.Md)
      (r : Option TpmEvdigest) : Type 0 where
    pub digest : TpmEvdigest
    pub found : r ≡ some digest
    pub hash : value_of digest ≡ evp.digest m (selected (is_authenticated info) 0 (file_of bp))

  IsFinal-IsDigested :
      (a : TpmAlgoInfo) (m : evp.Md) (info info' : AuthenticodeImageInfo) (bp : Buffer)
      → IsFile bp
      → end_of info.auth_range ≤ bp.wpos
      → IsFinal info info'
      → Ends
          (IsDigested info bp m)
          (hash_areas evp bp info'.area (fresh evp a m) >>= λ found. ok (final_of evp found))
  unfolding final_of
  IsFinal-IsDigested a m info info' bp f range final =
      let whole = All-ends (end_of info.auth_range) bp.wpos info'.area range final.within in
      let bytes = slices info'.area (file_of bp) in
      rw (hash_fresh a m info'.area bp f whole) (record {
        digest = digest_of evp a m bytes;
        found = ap some (final_lem a m bytes);
        hash =
            value_of-digest_of evp laws a m bytes
            ∙ ap (evp.digest m) (
                slices_from info'.area 0 (file_of bp) final.in_order (All-start info'.area) (
                  All-ends (end_of info.auth_range) (length (file_of bp)) info'.area
                    (omega (arith, length-take bp.wpos bp.octets, f.here)) final.within)
                ∙ selected_ext (covers info'.area) (is_authenticated info) 0 (file_of bp)
                    (λ o z. final.same_bytes o));
      })

  -- With a qsort() that sorts and OpenSSL's documented laws, for an algorithm that OpenSSL has with the
  -- expected size, on ranges that end below 2 GB, at most 64 areas, and a range that ends in the file: the
  -- call makes no access past its arrays, and unless it ends the process, it finds a digest, whose value is
  -- the hash of exactly the bytes of the file that an area covers, that no hole covers, and that lie in
  -- front of the end of the range, in the order of the file.
  pub authenticode_compute_lem :
      (qsort : (PecoffPlacement → PecoffPlacement → Bool)
        → List PecoffPlacement
        → List PecoffPlacement)
      (a : TpmAlgoInfo) (m : evp.Md) (info : AuthenticodeImageInfo) (bp : Buffer)
      → IsSort qsort
      → IsSupported evp a m
      → IsLaidOut info
      → IsFile bp
      → end_of info.auth_range ≤ bp.wpos
      → (ctx : DigestCtx evp) × (digest_ctx_new evp a ≡ ok (some ctx))
        × Ends (IsDigested info bp m) (authenticode_compute qsort evp info bp ctx)
  unfolding authenticode_compute
  authenticode_compute_lem qsort a m info bp sorts supported laid f range = (
    fresh evp a m,
    digest_ctx_new_lem evp a m supported,
    Ends->>= (IsFinal info) (IsDigested info bp m) (authenticode_finalize qsort info) _
        (authenticode_finalize-IsFinal qsort info sorts laid)
        (λ info' final. IsFinal-IsDigested a m info info' bp f range final),
  )
