-- ===== src/Digest/Compute.antt =====
-- What a digest context computes, over any OpenSSL with the documented behaviour.
use pcr_oracle.Common.{
  ℕ, ◌≡◌, refl, ◌∙◌, true, none, some, ◌++◌, ◌==◌, ==_iff, arith, length, drop, replicate,
  take-append, length-append, length-drop,
}
use pcr_oracle.Common.Bytes.{Octets}
use pcr_oracle.Common.Outcome.{ok, ◌>>=◌}
use pcr_oracle.Digest.Openssl.{Evp, IsStreaming}
use pcr_oracle.Digest.{
  TpmAlgoInfo, TpmEvdigest, DigestCtx, digest_ctx_new, digest_ctx_update, digest_ctx_final,
  digest_compute, zero_digest, value_of, evp_max_md_size,
}

module _ (evp : Evp) where
  -- OpenSSL knows the algorithm under its name, and agrees on the size.
  pub record IsSupported (a : TpmAlgoInfo) (m : evp.Md) : Type 0 where
    pub found : evp.get_digestbyname a.openssl_name ≡ some m
    pub sized : evp.md_size m ≡ a.digest_size

  -- The digest value of a byte string.
  abbrev pub digest_of : TpmAlgoInfo → evp.Md → Octets → TpmEvdigest
  digest_of a m source = record {
    algo = some a;
    size = length (evp.digest m source);
    octets =
        evp.digest m source ++ drop (length (evp.digest m source)) (replicate evp_max_md_size 0);
  }

  abbrev pub fresh : TpmAlgoInfo → evp.Md → DigestCtx evp
  fresh a m = record { mdctx = some (evp.digest_init m); md = record zero_digest { algo = some a } }

  pub digest_ctx_new_lem :
      (a : TpmAlgoInfo) (m : evp.Md)
      → IsSupported a m
      → digest_ctx_new evp a ≡ ok (some (fresh a m))
  unfolding digest_ctx_new
  digest_ctx_new_lem a m s =
      let size : (evp.md_size m == a.digest_size) ≡ true = (==_iff _ _).1 s.sized in
      rw (s.found, size)

module _ (evp : Evp) (laws : IsStreaming evp) where
  -- An allocated context, one update and the final value.
  pub digest_ctx_one :
      (a : TpmAlgoInfo) (m : evp.Md) (source : Octets)
      → (digest_ctx_update evp (fresh evp a m) source >>= λ ctx. ok (digest_ctx_final evp ctx).1)
        ≡ ok (digest_of evp a m source)
  unfolding digest_ctx_update digest_ctx_final
  digest_ctx_one a m source = rw (laws.one_range m source)

  -- Two updates hash the two ranges one after the other.
  pub digest_ctx_two :
      (a : TpmAlgoInfo) (m : evp.Md) (first second : Octets)
      → (digest_ctx_update evp (fresh evp a m) first >>= λ ctx.
          digest_ctx_update evp ctx second >>= λ ctx'. ok (digest_ctx_final evp ctx').1)
        ≡ ok (digest_of evp a m (first ++ second))
  unfolding digest_ctx_update digest_ctx_final
  digest_ctx_two a m first second =
      rw (laws.update_twice (evp.digest_init m) first second, laws.one_range m (first ++ second))

  pub length-octets-digest_of :
      (a : TpmAlgoInfo) (m : evp.Md) (source : Octets)
      → length (digest_of evp a m source).octets ≡ evp_max_md_size
  length-octets-digest_of a m source =
      let zeros : Octets = replicate evp_max_md_size 0 in
      omega (
        arith,
        length-append (evp.digest m source) (drop (length (evp.digest m source)) zeros),
        length-drop {A = ℕ} (length (evp.digest m source)) (replicate 64 0),
        laws.final_size m source,
        laws.size_limit m,
      )

  pub value_of-digest_of :
      (a : TpmAlgoInfo) (m : evp.Md) (source : Octets)
      → value_of (digest_of evp a m source) ≡ evp.digest m source
  value_of-digest_of a m source =
      take-append (evp.digest m source)
        (drop (length (evp.digest m source)) (replicate evp_max_md_size 0))
        (length (evp.digest m source)) refl

  -- Over OpenSSL's documented laws, and for an algorithm that it has under its name with the expected size, `digest_compute` returns a
  -- digest of that algorithm and size whose value is the hash of the data.
  pub digest_compute_lem :
      (a : TpmAlgoInfo) (m : evp.Md) (source : Octets)
      → IsSupported evp a m
      → (md : TpmEvdigest) × (digest_compute evp a source ≡ ok (some md))
        × (md.algo ≡ some a)
        × (md.size ≡ a.digest_size)
        × (value_of md ≡ evp.digest m source)
  unfolding digest_compute
  digest_compute_lem a m source s = (
    digest_of evp a m source,
    rw (digest_ctx_new_lem evp a m s)
        (unfold digest_ctx_update digest_ctx_final in rw (laws.one_range m source)),
    refl,
    laws.final_size m source ∙ s.sized,
    value_of-digest_of a m source,
  )

-- An algorithm that OpenSSL does not have gives no digest.
pub digest_compute_unknown :
    (evp : Evp) (a : TpmAlgoInfo) (source : Octets)
    → evp.get_digestbyname a.openssl_name ≡ none
    → digest_compute evp a source ≡ ok none
unfolding digest_compute digest_ctx_new
digest_compute_unknown evp a source h = rw h
