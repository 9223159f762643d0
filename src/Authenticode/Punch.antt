-- ===== src/Authenticode/Punch.antt =====
-- The loops of `authenticode_finalize` that punch the holes: which bytes the areas cover afterwards.
use pcr_oracle.Common.{
  ℕ, zero, suc, ◌+◌, ◌^◌, ◌≤◌, ◌<◌, ◌≡◌, ◌∙◌, refl, ap, sym, Bool, true, false, not, ◌&&◌, ◌||◌,
  List, [], ◌∷◌, ◌++◌, ltb, leb, arith, length, length-append, All,
}
use pcr_oracle.Common.Booleans.{
  any, any-append, or_false, or_assoc, or_and, and_false, and_not_or, and_true,
}
use pcr_oracle.Common.Outcome.{Ends, Ends->>=, Ends-fatal_if, Ends-if, Ends-map}
use pcr_oracle.Authenticode.{
  PecoffPlacement, end_of, are_apart, in_front, behind, punch_area, punch, punch_holes,
  pecoff_max_areas,
}

-- A range that ends below 2 GB, so that no sum wraps around.
abbrev pub IsBounded : PecoffPlacement → Type 0
IsBounded p = p.addr + p.size < 2 ^ 31

-- The byte `o` of the file lies in the range.
unfoldable pub inside : ℕ → PecoffPlacement → Bool
inside o p = leb p.addr o && ltb o (p.addr + p.size)

-- It lies in one of the ranges.
unfoldable pub covers : List PecoffPlacement → ℕ → Bool
unfolding any
covers ps o = any (inside o) ps

pub end_of_lem : (p : PecoffPlacement) → IsBounded p → end_of p ≡ p.addr + p.size
end_of_lem p b = omega arith

apart_lem :
    (o : ℕ) (hole area : PecoffPlacement)
    → IsBounded hole
    → IsBounded area
    → are_apart hole area ≡ true
    → (inside o area && not (inside o hole)) ≡ inside o area
unfolding inside
apart_lem o hole area bh ba h =
    let eh : end_of hole ≡ hole.addr + hole.size = end_of_lem hole bh in
    let ea : end_of area ≡ area.addr + area.size = end_of_lem area ba in ground (arith, eh, ea)

-- Where the hole ends first, the two parts cover what the area covers outside of the hole.
split_lem :
    (o : ℕ) (hole area : PecoffPlacement)
    → IsBounded hole
    → IsBounded area
    → are_apart hole area ≡ false
    → ltb (end_of hole) (end_of area) ≡ true
    → (inside o (in_front hole area) || (inside o (behind hole area) && not (inside o hole)))
      ≡ (inside o area && not (inside o hole))
unfolding inside
split_lem o hole area bh ba h l = ground (arith, end_of_lem hole bh, end_of_lem area ba)

front_lem :
    (o : ℕ) (hole area : PecoffPlacement)
    → IsBounded hole
    → IsBounded area
    → are_apart hole area ≡ false
    → ltb (end_of hole) (end_of area) ≡ false
    → inside o (in_front hole area) ≡ (inside o area && not (inside o hole))
unfolding inside
front_lem o hole area bh ba h l = ground (arith, end_of_lem hole bh, end_of_lem area ba)

in_front-IsBounded :
    (hole area : PecoffPlacement)
    → IsBounded hole
    → IsBounded area
    → are_apart hole area ≡ false
    → IsBounded (in_front hole area)
in_front-IsBounded hole area bh ba h = ground (arith, end_of_lem hole bh, end_of_lem area ba)

behind-IsBounded :
    (hole area : PecoffPlacement)
    → IsBounded hole
    → IsBounded area
    → ltb (end_of hole) (end_of area) ≡ true
    → IsBounded (behind hole area)
behind-IsBounded hole area bh ba h = ground (arith, end_of_lem hole bh, end_of_lem area ba)

-- What one round makes of an area and those behind it, `n` areas being in front of those.
record IsPunched (hole : PecoffPlacement) (n : ℕ) (area : PecoffPlacement)
    (todo : List PecoffPlacement) (r : PecoffPlacement × List PecoffPlacement) : Type 0 where
  first_bounded : IsBounded r.0
  others_bounded : All IsBounded r.1
  fits : n + length r.1 ≤ pecoff_max_areas
  same_bytes :
      (o : ℕ)
      → (inside o r.0 || (covers r.1 o && not (inside o hole)))
        ≡ (inside o area && not (inside o hole) || covers todo o && not (inside o hole))

All-append :
    (P : PecoffPlacement → Type 0) (xs ys : List PecoffPlacement)
    → All P xs
    → All P ys
    → All P (xs ++ ys)
All-append P [] ys h k = k
All-append P (x ∷ xs) ys (h, hs) k = (h, All-append P xs ys hs k)

covers-append :
    (xs ys : List PecoffPlacement) (o : ℕ) → covers (xs ++ ys) o ≡ (covers xs o || covers ys o)
unfolding covers
covers-append xs ys o = any-append (inside o) xs ys

covers_one : (x : PecoffPlacement) (o : ℕ) → covers (x ∷ []) o ≡ inside o x
unfolding covers any
covers_one x o = or_false (inside o x)

-- `f || (t || b) && n` for a part `b` that the round adds.
regroup :
    (f t b n area : Bool) → (f || (b && n)) ≡ area → (f || ((t || b) && n)) ≡ (area || (t && n))
regroup true t b n area e = rw (← e) refl
regroup false true true true area e = rw (← e) refl
regroup false true false true area e = rw (← e) refl
regroup false true b false area e = rw (← e, and_false b) refl
regroup false false b n area e = rw (← e, or_false (b && n)) refl

punch_area-IsPunched :
    (hole : PecoffPlacement) (n : ℕ) (area : PecoffPlacement) (todo : List PecoffPlacement)
    → IsBounded hole
    → IsBounded area
    → All IsBounded todo
    → n + length todo ≤ pecoff_max_areas
    → Ends (IsPunched hole n area todo) (punch_area hole (n + length todo) area todo)
unfolding punch_area
punch_area-IsPunched hole n area todo bh ba bt fits =
    let Q = IsPunched hole n area todo in
    Ends-if Q (are_apart hole area) _ _
      (λ apart. record {
        first_bounded = ba;
        others_bounded = bt;
        fits = fits;
        same_bytes = λ o. rw (apart_lem o hole area bh ba apart) refl;
      })
      (λ meet.
        Ends-if Q (ltb (end_of hole) (end_of area)) _ _
          (λ before. Ends-fatal_if Q (leb pecoff_max_areas (n + length todo)) _ (λ room. record {
            first_bounded = in_front-IsBounded hole area bh ba meet;
            others_bounded =
                All-append IsBounded todo (behind hole area ∷ []) bt
                  (behind-IsBounded hole area bh ba before, tt);
            fits = ground (arith, length-append todo (behind hole area ∷ []));
            same_bytes = λ o.
                rw (covers-append todo (behind hole area ∷ []) o, covers_one (behind hole area) o)
                  (regroup (inside o (in_front hole area)) (covers todo o)
                    (inside o (behind hole area)) (not (inside o hole)) _
                    (split_lem o hole area bh ba meet before));
          }))
          (λ after. record {
            first_bounded = in_front-IsBounded hole area bh ba meet;
            others_bounded = bt;
            fits = fits;
            same_bytes = λ o.
                ap (λ b. b || (covers todo o && not (inside o hole)))
                  (front_lem o hole area bh ba meet after);
          }))

-- What the inner loop leaves of the areas for one hole.
record IsCut (hole : PecoffPlacement) (done todo out : List PecoffPlacement) : Type 0 where
  bounded : All IsBounded out
  count : length out ≤ pecoff_max_areas
  same_bytes : (o : ℕ) → covers out o ≡ (covers done o || covers todo o && not (inside o hole))

-- The rounds put together: `d` is done, `f` the area of this round, `t` those behind it.
join_round :
    (d f t t' a n : Bool)
    → (f || (t' && n)) ≡ (a && n || t && n)
    → ((d || f) || t' && n) ≡ (d || (a || t) && n)
join_round d f t t' a n e = or_assoc d f (t' && n) ∙ ap (λ b. d || b) (e ∙ or_and a t n)

IsCut-step :
    (hole : PecoffPlacement) (done : List PecoffPlacement) (area : PecoffPlacement)
    (todo : List PecoffPlacement) (r : PecoffPlacement × List PecoffPlacement)
    → IsPunched hole (suc (length done)) area todo r
    → (out : List PecoffPlacement) → IsCut hole (done ++ (r.0 ∷ [])) r.1 out
    → IsCut hole done (area ∷ todo) out
unfolding covers any
IsCut-step hole done area todo r p out c = record {
  bounded = c.bounded;
  count = c.count;
  same_bytes = λ o.
      c.same_bytes o
      ∙ ap (λ b. b || covers r.1 o && not (inside o hole))
          (covers-append done (r.0 ∷ []) o ∙ ap (λ b. covers done o || b) (covers_one r.0 o))
      ∙ join_round (covers done o) (inside o r.0) (covers todo o) (covers r.1 o) (inside o area)
          (not (inside o hole)) (p.same_bytes o);
}

punch-IsCut :
    (slots : ℕ) (hole : PecoffPlacement) (done todo : List PecoffPlacement)
    → IsBounded hole
    → All IsBounded done
    → All IsBounded todo
    → slots + length done ≡ pecoff_max_areas
    → length done + length todo ≤ pecoff_max_areas
    → Ends (IsCut hole done todo) (punch slots hole done todo)
unfolding punch covers any
punch-IsCut slots hole done [] bh bd bt s fits = record {
  bounded = bd;
  count = omega arith;
  same_bytes = λ o. sym (or_false (any (inside o) done));
}
punch-IsCut zero hole done (area ∷ todo) bh bd bt s fits = absurd (omega arith)
punch-IsCut (suc slots) hole done (area ∷ todo) bh bd (ba, bt) s fits =
    Ends->>= (IsPunched hole (suc (length done)) area todo) (IsCut hole done (area ∷ todo))
      (punch_area hole (suc (length done) + length todo) area todo)
      (λ r. punch slots hole (done ++ (r.0 ∷ [])) r.1)
      (punch_area-IsPunched hole (suc (length done)) area todo bh ba bt (omega arith))
      (λ r p.
        Ends-map (IsCut hole (done ++ (r.0 ∷ [])) r.1) (IsCut hole done (area ∷ todo))
          (punch slots hole (done ++ (r.0 ∷ [])) r.1)
          (λ out. IsCut-step hole done area todo r p out)
          (punch-IsCut slots hole (done ++ (r.0 ∷ [])) r.1 bh
            (All-append IsBounded done (r.0 ∷ []) bd (p.first_bounded, tt)) p.others_bounded
            (omega (arith, length-append done (r.0 ∷ [])))
            (omega (arith, length-append done (r.0 ∷ []), p.fits))))

-- What the outer loop leaves.
pub record IsHoled (holes areas out : List PecoffPlacement) : Type 0 where
  pub bounded : All IsBounded out
  pub count : length out ≤ pecoff_max_areas
  pub same_bytes : (o : ℕ) → covers out o ≡ (covers areas o && not (covers holes o))

pub punch_holes-IsHoled :
    (holes areas : List PecoffPlacement)
    → All IsBounded holes
    → All IsBounded areas
    → length areas ≤ pecoff_max_areas
    → Ends (IsHoled holes areas) (punch_holes holes areas)
unfolding punch_holes covers any
punch_holes-IsHoled [] areas bh ba count = record {
  bounded = ba;
  count = count;
  same_bytes = λ o. sym (and_true (any (inside o) areas));
}
punch_holes-IsHoled (hole ∷ holes) areas (bh, bhs) ba count =
    Ends->>= (IsCut hole [] areas) (IsHoled (hole ∷ holes) areas)
      (punch pecoff_max_areas hole [] areas) (punch_holes holes)
      (punch-IsCut pecoff_max_areas hole [] areas bh tt ba (omega arith) (omega arith))
      (λ mid c.
        Ends-map (IsHoled holes mid) (IsHoled (hole ∷ holes) areas) (punch_holes holes mid)
          (λ out p. record {
            bounded = p.bounded;
            count = p.count;
            same_bytes = λ o.
                p.same_bytes o
                ∙ ap (λ b. b && not (covers holes o)) (c.same_bytes o)
                ∙ and_not_or (covers areas o) (inside o hole) (covers holes o);
          })
          (punch_holes-IsHoled holes mid bhs c.bounded c.count))
