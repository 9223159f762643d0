-- ===== src/Predictor/Round/Steps.antt =====
-- What one round of the update loop of src/oracle.c does, proved step by step.
use pcr_oracle.Common.{
  ℕ, ◌<◌, ◌≡◌, refl, sym, ap, ◌∙◌, Bool, true, false, Option, none, some, List, [], ◌∷◌, ◌==◌,
  arith, Bool-cases, inl, inr,
}
use mathlib.Core.Path.{subst}
use pcr_oracle.Common.Bits.{test_bit}
use pcr_oracle.Common.Outcome.{ok}
use pcr_oracle.Digest.{
  TpmAlgoInfo, TpmEvdigest, AlgoTable, static_table, log_table, same_table, algo_eq,
}
use pcr_oracle.Digest.Openssl.{Evp, IsStreaming}
use pcr_oracle.Pcr.{TpmPcrBank, pcr_bank_register_max}
use pcr_oracle.Pcr.Masks.{wants_register, pcr_bank_get_register_lem}
use pcr_oracle.EventLog.{
  TpmEvent, ParsedEvent, Strategy, parse_none, parse_rehash, copy, no_action, tpm_event_get_digest,
  find_digest, efi_gpt_event,
}
use pcr_oracle.Predictor.Extend.{
  pcr_bank_extend_register, extended, pcr_bank_extend_register_lem, extended-IsBank, value-extended,
}
use pcr_oracle.Predictor.Update.{
  RehashOps, Step, process_event, select_digest, extend_event, looked_ahead, next_stage, hash_event,
}
use pcr_oracle.Predictor.Round.{
  IsReady, IsReadable, IsTotal, IsStep, OfAlgo, Predicts, IsLookedAhead, context_of, IsUpdated,
  or_logged,
}

same_table_sym : (s t : AlgoTable) → same_table s t ≡ same_table t s
same_table_sym static_table static_table = refl
same_table_sym static_table log_table = refl
same_table_sym log_table static_table = refl
same_table_sym log_table log_table = refl

algo_eq_sym : (a : Option TpmAlgoInfo) (b : TpmAlgoInfo) → algo_eq a (some b) ≡ algo_eq (some b) a
algo_eq_sym none b = refl
algo_eq_sym (some a) b = ground (arith, same_table_sym a.table b.table)

-- A digest that is found is of the algorithm that was asked for.
find_digest-algo :
    (mds : List TpmEvdigest) (a : TpmAlgoInfo) (md : TpmEvdigest)
    → find_digest mds a ≡ some md
    → algo_eq (some a) md.algo ≡ true
unfolding find_digest
find_digest-algo [] a md h = cc
find_digest-algo (d ∷ mds) a md h = elim (Bool-cases (algo_eq d.algo (some a))) [
  | inl e ↦
      let same : d ≡ md = ground (arith, e) in
      ap (λ x. algo_eq (some a) x.algo) (sym same) ∙ sym (algo_eq_sym d.algo a) ∙ e
  | inr e ↦ find_digest-algo mds a md (ground (arith, e))
]

module _ (evp : Evp) (laws : IsStreaming evp) {Other Ctx : Type 0} (ops : RehashOps Other Ctx)
    (algo_info : TpmAlgoInfo) (m : evp.Md) where
  some_algo :
      (md : TpmEvdigest)
      → algo_eq (some algo_info) md.algo ≡ true
      → (a : TpmAlgoInfo) × (md.algo ≡ some a)
  some_algo md h = ground arith

  extended-IsReady :
      {bank : TpmPcrBank} (i : ℕ) (d : TpmEvdigest)
      → IsReady evp laws ops algo_info m bank
      → IsReady evp laws ops algo_info m (extended evp laws m bank i d)
  extended-IsReady i d r = record {
    bank_ok = extended-IsBank evp laws m i d r.bank_ok r.supported;
    same_algo = r.same_algo;
    supported = r.supported;
    valid = r.valid;
  }

  -- An extend by a digest of the algorithm.
  extend-IsStep :
      (ev : TpmEvent Other) (ctx : Ctx) (bank : TpmPcrBank) (md : TpmEvdigest) (okay : Bool)
      → IsReady evp laws ops algo_info m bank
      → ev.pcr_index < pcr_bank_register_max
      → wants_register bank ev.pcr_index ≡ true
      → algo_eq (some algo_info) md.algo ≡ true
      → (pcr_bank_extend_register evp bank ev.pcr_index md
          ≡ ok (extended evp laws m bank ev.pcr_index md))
        × IsStep evp laws ops algo_info m bank ev (record {
          event = record ev { predicted_digest = md };
          ctx = ctx;
          bank = extended evp laws m bank ev.pcr_index md;
          okay = okay;
        })
  extend-IsStep ev ctx bank md okay r h w same =
      let (a, known) = some_algo md same in
      (
        pcr_bank_extend_register_lem evp laws m ev.pcr_index md r.bank_ok r.supported h
            (r.valid ev.pcr_index h ∙ w) (ap (λ t. algo_eq (some t) md.algo) r.same_algo ∙ same),
        record {
          ready = extended-IsReady ev.pcr_index md r;
          same_index = refl;
          same_mask = refl;
          value = λ p hp.
              ground (arith, value-extended evp laws m ev.pcr_index p md r.bank_ok hp, known);
        },
      )

  -- No digest is predicted and the bank stays.
  skip-IsStep :
      (ev ev' : TpmEvent Other) (ctx : Ctx) (bank : TpmPcrBank) (okay : Bool)
      → IsReady evp laws ops algo_info m bank
      → ev'.pcr_index ≡ ev.pcr_index
      → ev'.predicted_digest.algo ≡ none
      → IsStep evp laws ops algo_info m bank ev
          (record { event = ev'; ctx = ctx; bank = bank; okay = okay })
  skip-IsStep ev ev' ctx bank okay r same u = record {
    ready = r;
    same_index = same;
    same_mask = refl;
    value = λ p hp. ground (arith, u);
  }

  abbrev NewOfAlgo : Option (Option TpmEvdigest) → Type 0
  NewOfAlgo none = Unit
  NewOfAlgo (some md) = OfAlgo evp laws ops algo_info m md

  -- The prediction that the extend leaves.
  abbrev predicted_by : TpmEvent Other → TpmEvdigest → Option (Option TpmEvdigest) → TpmEvdigest
  predicted_by ev old none = ev.predicted_digest
  predicted_by ev old (some new) = or_logged evp laws ops algo_info m new old

  extend_event_lem :
      (ev : TpmEvent Other) (ctx : Ctx) (bank : TpmPcrBank) (old : TpmEvdigest)
      (new : Option (Option TpmEvdigest))
      → IsReady evp laws ops algo_info m bank
      → ev.pcr_index < pcr_bank_register_max
      → wants_register bank ev.pcr_index ≡ true
      → ev.predicted_digest.algo ≡ none
      → algo_eq (some algo_info) old.algo ≡ true
      → NewOfAlgo new
      → (s : Step Other Ctx) × (extend_event evp ops algo_info ev ctx bank old new ≡ ok s)
        × IsStep evp laws ops algo_info m bank ev s
        × (s.event ≡ record ev { predicted_digest = predicted_by ev old new })
        × (s.ctx ≡ ctx)
  unfolding extend_event
  extend_event_lem ev ctx bank old none r h w u o n =
      (_, refl, skip-IsStep ev ev ctx bank true r refl u, refl, refl)
  extend_event_lem ev ctx bank old (some none) r h w u o n =
      let (runs, st) = extend-IsStep ev ctx bank old false r h w o in (_, rw runs, st, refl, refl)
  extend_event_lem ev ctx bank old (some (some md)) r h w u o n =
      let (runs, st) = extend-IsStep ev ctx bank md true r h w n in (_, rw runs, st, refl, refl)

  select_digest_lem :
      (st : Strategy) (ev : TpmEvent Other) (old : TpmEvdigest) (ctx : Ctx)
      → IsTotal evp laws ops algo_info m
      → algo_eq (some algo_info) old.algo ≡ true
      → (new : Option (Option TpmEvdigest)) × (ctx' : Ctx) × (select_digest evp ops algo_info st ev
            old ctx
          ≡ ok (new, ctx'))
        × NewOfAlgo new
        × Predicts evp laws ops algo_info m st ev ctx ctx' old (predicted_by ev old new)
  unfolding select_digest
  select_digest_lem parse_rehash ev old ctx t o =
      let (md, ctx', runs, same) = t.rehash_returns ev ctx in
      (some md, ctx', rw runs, same, (md, runs, refl))
  select_digest_lem copy ev old ctx t o = (some (some old), ctx, refl, o, (refl, refl))
  select_digest_lem no_action ev old ctx t o = (none, ctx, refl, tt, (refl, refl))
  select_digest_lem parse_none ev old ctx t o = (some (some old), ctx, refl, o, (refl, refl))

  -- The event after a round on a selected register.
  selected-IsUpdated :
      (mask : ℕ) (rest : List (TpmEvent Other)) (ev ev' : TpmEvent Other)
      (form : Option (ParsedEvent Other)) (ctx ctx' : Ctx) (old out : TpmEvdigest)
      → test_bit mask ev.pcr_index ≡ true
      → tpm_event_get_digest ev algo_info ≡ some old
      → IsLookedAhead evp laws ops algo_info m ev rest form
      → Predicts evp laws ops algo_info m ev.rehash_strategy
          (record ev { parsed = form })
          (context_of evp laws ops algo_info m (record ev { parsed = form }) rest ctx)
          ctx'
          old
          out
      → ev' ≡ record ev { parsed = form; predicted_digest = out }
      → IsUpdated evp laws ops algo_info m mask rest ev ev' ctx ctx'
  selected-IsUpdated mask rest ev ev' form ctx ctx' old out w has looked p e =
      let ev1 : TpmEvent Other = record ev { parsed = form } in
      subst (λ x. IsUpdated evp laws ops algo_info m mask rest ev x ctx ctx') (sym e)
        (record {
          same = refl;
          unselected = λ h. cc;
          selected = λ h old' has'.
              let one : old ≡ old' = cc in
              (
                looked,
                subst
                    (λ o.
                      Predicts evp laws ops algo_info m ev.rehash_strategy ev1
                        (context_of evp laws ops algo_info m ev1 rest ctx) ctx' o out)
                    one p,
              );
        })

  next_stage_lem :
      (ev : TpmEvent Other) (rest : List (TpmEvent Other)) (ctx : Ctx)
      → next_stage evp ops algo_info ev rest ctx ≡ context_of evp laws ops algo_info m ev rest ctx
  unfolding next_stage
  next_stage_lem ev rest ctx = refl

  -- The lookahead changes the parsed form at most.
  looked_ahead_lem :
      (ev : TpmEvent Other) (rest : List (TpmEvent Other))
      → IsTotal evp laws ops algo_info m
      → (p : Option (ParsedEvent Other)) × (looked_ahead evp ops algo_info ev rest
          ≡ ok (record ev { parsed = p }))
        × IsLookedAhead evp laws ops algo_info m ev rest p
  unfolding looked_ahead
  looked_ahead_lem ev rest t = elim (Bool-cases (ev.event_type == efi_gpt_event)) [
    | inl e ↦ let (p, runs) = t.partition_returns ev rest in (p, rw (e, runs), (λ h. runs, λ h. cc))
    | inr e ↦ (ev.parsed, rw e, (λ h. cc, λ h. refl))
  ]

  hash_event_lem :
      (ev : TpmEvent Other) (rest : List (TpmEvent Other)) (ctx : Ctx) (bank : TpmPcrBank)
      → IsTotal evp laws ops algo_info m
      → IsReady evp laws ops algo_info m bank
      → IsReadable evp laws ops algo_info m ev
      → wants_register bank ev.pcr_index ≡ true
      → (s : Step Other Ctx) × (hash_event evp ops algo_info ev rest ctx bank ≡ ok s)
        × IsStep evp laws ops algo_info m bank ev s
        × IsUpdated evp laws ops algo_info m bank.pcr_mask rest ev s.event ctx s.ctx
  unfolding hash_event
  hash_event_lem ev rest ctx bank t r v w =
      let old = v.logged in
      let same : algo_eq (some algo_info) old.algo ≡ true =
        unfold tpm_event_get_digest in find_digest-algo ev.pcr_values algo_info old v.has_digest in
      let (p, looks, looked) = looked_ahead_lem ev rest t in
      let ev' : TpmEvent Other = record ev { parsed = p } in
      let (new, ctx', selects, n, predicts) =
        select_digest_lem ev.rehash_strategy ev' old
          (context_of evp laws ops algo_info m ev' rest ctx) t same in
      let (s, runs, st, event, context) =
        extend_event_lem ev' ctx' bank old new r v.in_range w v.unpredicted same n in
      (
        s,
        rw (v.has_digest, looks, next_stage_lem ev' rest ctx, selects) runs,
        record {
          ready = st.ready;
          same_index = st.same_index;
          same_mask = st.same_mask;
          value = st.value;
        },
        subst (λ c. IsUpdated evp laws ops algo_info m bank.pcr_mask rest ev s.event ctx c)
            (sym context)
            (selected-IsUpdated bank.pcr_mask rest ev s.event p ctx ctx' old
              (predicted_by ev old new) w v.has_digest looked predicts event),
      )

  pub process_event_lem :
      (ev : TpmEvent Other) (rest : List (TpmEvent Other)) (ctx : Ctx) (bank : TpmPcrBank)
      → IsTotal evp laws ops algo_info m
      → IsReady evp laws ops algo_info m bank
      → IsReadable evp laws ops algo_info m ev
      → (s : Step Other Ctx) × (process_event evp ops algo_info ev rest ctx bank ≡ ok s)
        × IsStep evp laws ops algo_info m bank ev s
        × IsUpdated evp laws ops algo_info m bank.pcr_mask rest ev s.event ctx s.ctx
  unfolding process_event
  process_event_lem ev rest ctx bank t r v = elim (Bool-cases (wants_register bank ev.pcr_index)) [
    | inl w ↦
        let (s, runs, st, updated) = hash_event_lem ev rest ctx bank t r v w in
        (s, rw (pcr_bank_get_register_lem bank ev.pcr_index v.in_range, w) runs, st, updated)
    | inr w ↦ (
      _,
      rw (pcr_bank_get_register_lem bank ev.pcr_index v.in_range, w) refl,
      skip-IsStep ev ev ctx bank true r refl v.unpredicted,
      record { same = refl; unselected = λ h. (refl, refl); selected = λ h. cc },
    )
  ]
