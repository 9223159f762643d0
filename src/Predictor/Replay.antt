-- ===== src/Predictor/Replay.antt =====
-- The update loop against a TPM's replay of the predicted digests.
use pcr_oracle.Common.{
  ℕ, zero, suc, length, ◌+◌, ◌<◌, ◌≡◌, refl, sym, ap, ◌∙◌, Bool, true, false, ◌&&◌, List, [], ◌∷◌,
  ◌++◌, ◌==◌, if◌then◌else◌, arith, Bool-cases, inl, inr, All,
}
use mathlib.Core.Path.{subst}
use pcr_oracle.Predictor.Stopping.{before_stop, before_stop_here, before_stop_later}
use pcr_oracle.Common.Bytes.{Octets}
use pcr_oracle.Common.Outcome.{ok}
use pcr_oracle.Digest.{TpmAlgoInfo, value_of}
use pcr_oracle.Digest.Openssl.{Evp, IsStreaming}
use pcr_oracle.Pcr.{TpmPcrBank, pcr_bank_register_max, get_pcr}
use pcr_oracle.EventLog.{TpmEvent}
use pcr_oracle.Predictor.Update.{RehashOps, StopAt, Step, stops_at, update_events}
use pcr_oracle.Predictor.Round.Steps.{process_event_lem}
use pcr_oracle.Predictor.Round.{is_predicted, IsReady, IsReadable, IsTotal, IsStep, IsUpdated}

-- What a TPM holds in register `p` that starts with `acc` and is extended by each predicted digest of
-- an event for that register, in the order of the log: acc := H(acc ++ digest).
unfoldable pub replay :
    (evp : Evp) {Other : Type 0} → evp.Md → ℕ → Octets → List (TpmEvent Other) → Octets
replay evp m p acc [] = acc
replay evp m p acc (ev ∷ evs) =
    replay evp m p
      (if ev.pcr_index == p && is_predicted ev
        then evp.digest m (acc ++ value_of ev.predicted_digest)
        else acc)
      evs

module _ (evp : Evp) (laws : IsStreaming evp) {Other Ctx : Type 0} (ops : RehashOps Other Ctx)
    (algo_info : TpmAlgoInfo) (m : evp.Md) where
  -- Events with no prediction leave a replayed value as it is.
  replay_unpredicted :
      (p : ℕ) (acc : Octets) (evs : List (TpmEvent Other))
      → All (IsReadable evp laws ops algo_info m) evs
      → replay evp m p acc evs ≡ acc
  unfolding replay
  replay_unpredicted p acc [] h = refl
  replay_unpredicted p acc (ev ∷ evs) (v, vs) =
      let idle : (ev.pcr_index == p && is_predicted ev) ≡ false = ground (arith, v.unpredicted) in
      rw idle (replay_unpredicted p acc evs vs)

  -- The first `n` events are processed, each in the context that the one before leaves, and those behind them stay as they were.
  abbrev pub AllUpdated : ℕ → ℕ → Ctx → List (TpmEvent Other) → List (TpmEvent Other) → Type 0
  AllUpdated mask zero ctx evs outs = outs ≡ evs
  AllUpdated mask (suc n) ctx [] outs = outs ≡ []
  AllUpdated mask (suc n) ctx (ev ∷ evs) [] = ⊥
  AllUpdated mask (suc n) ctx (ev ∷ evs) (out ∷ outs) =
      (ctx' : Ctx) × IsUpdated evp laws ops algo_info m mask evs ev out ctx ctx'
      × AllUpdated mask n ctx' evs outs

  AllUpdated-none : (mask n : ℕ) (ctx : Ctx) → AllUpdated mask n ctx [] []
  AllUpdated-none mask zero ctx = refl
  AllUpdated-none mask (suc n) ctx = refl

  -- The outcome of the loop on events of which `n` are processed: their predictions, and a bank in which
  -- each register holds the replay of what was predicted.
  pub record IsReplayed (bank : TpmPcrBank) (ctx : Ctx) (n : ℕ) (evs : List (TpmEvent Other))
      (r : List (TpmEvent Other) × TpmPcrBank × Bool) : Type 0 where
    pub updated : AllUpdated bank.pcr_mask n ctx evs r.0
    pub ready : IsReady evp laws ops algo_info m r.1
    pub value :
        (p : ℕ)
        → p < pcr_bank_register_max
        → value_of (get_pcr r.1 p) ≡ replay evp m p (value_of (get_pcr bank p)) r.0

  -- One more event in front of a replayed rest.
  IsReplayed-cons :
      {bank : TpmPcrBank} {ev : TpmEvent Other} {s : Step Other Ctx} (ctx : Ctx) (n : ℕ)
      (evs rest : List (TpmEvent Other)) (bank' : TpmPcrBank) (okay okay' : Bool)
      → IsStep evp laws ops algo_info m bank ev s
      → IsUpdated evp laws ops algo_info m bank.pcr_mask evs ev s.event ctx s.ctx
      → IsReplayed s.bank s.ctx n evs (rest, bank', okay)
      → IsReplayed bank ctx (suc n) (ev ∷ evs) (s.event ∷ rest, bank', okay')
  unfolding replay
  IsReplayed-cons {bank} {ev} {s} ctx n evs rest bank' okay okay' st u r = record {
    updated = (s.ctx, u, subst (λ mask. AllUpdated mask n s.ctx evs rest) st.same_mask r.updated);
    ready = r.ready;
    value = λ p h. r.value p h ∙ ap (λ acc. replay evp m p acc rest) (st.value p h);
  }

  IsReplayed-idle :
      (bank : TpmPcrBank) (ctx : Ctx) (evs : List (TpmEvent Other)) (okay : Bool)
      → IsReady evp laws ops algo_info m bank
      → All (IsReadable evp laws ops algo_info m) evs
      → IsReplayed bank ctx 0 evs (evs, bank, okay)
  IsReplayed-idle bank ctx evs okay r vs = record {
    updated = refl;
    ready = r;
    value = λ p h. sym (replay_unpredicted p (value_of (get_pcr bank p)) evs vs);
  }

  -- Over any OpenSSL with the documented laws that has the predictor's algorithm, on a log of events
  -- for the 24 registers that have a digest of that algorithm and no prediction, from a well-formed
  -- bank of it in which exactly the selected registers are valid, and with a lookahead and a re-hashing
  -- that return and give digests of the algorithm, the update returns, whatever the stop event; the bank
  -- is then as it was required to be; each event up to the stop event, of which `after` says whether it
  -- counts, that is for a selected register has as its prediction the logged digest, or none where its
  -- strategy is no action, or, where its strategy is to re-hash, what that finds with the parsed form and
  -- the context after looking ahead, and the logged digest where it finds none, each in the context that
  -- the event before leaves; the event is the same otherwise, and all other events are as before; and
  -- each of the 24 registers holds what a TPM computes from its initial value by extending it with the
  -- predicted digests of its events in the order of the log.
  pub update_events-replay :
      (stop : StopAt) (evs : List (TpmEvent Other)) (i : ℕ) (ctx : Ctx) (bank : TpmPcrBank)
      (okay : Bool)
      → IsTotal evp laws ops algo_info m
      → IsReady evp laws ops algo_info m bank
      → All (IsReadable evp laws ops algo_info m) evs
      → (r : List (TpmEvent Other) × TpmPcrBank × Bool) × (update_events evp ops algo_info stop evs
            i ctx bank okay
          ≡ ok r)
        × IsReplayed bank ctx (before_stop stop.position stop.after i (length evs)) evs r
  unfolding update_events
  update_events-replay stop [] i ctx bank okay t r vs =
      let idle = IsReplayed-idle bank ctx [] okay r tt in
      (
        _,
        refl,
        record {
          updated = AllUpdated-none bank.pcr_mask (before_stop stop.position stop.after i 0) ctx;
          ready = idle.ready;
          value = idle.value;
        },
      )
  update_events-replay stop (ev ∷ rest) i ctx bank okay t r (v, vs) =
      let (s, runs, st, u) = process_event_lem evp laws ops algo_info m ev rest ctx bank t r v in
      elim (Bool-cases (stops_at stop i)) [
        | inl here ↦
            let count = before_stop_here stop.position stop.after i (length rest) here in
            elim (Bool-cases stop.after) [
              | inl after ↦ (
                (s.event ∷ rest, s.bank, okay && s.okay),
                rw (here, after, runs) refl,
                subst
                    (λ n.
                      IsReplayed bank ctx n (ev ∷ rest) (s.event ∷ rest, s.bank, okay && s.okay))
                    (sym (count ∙ ap (λ b. if b then 1 else 0) after))
                    (IsReplayed-cons ctx 0 rest rest s.bank true _ st u
                      (IsReplayed-idle s.bank s.ctx rest true st.ready vs)),
              )
              | inr before ↦ (
                (ev ∷ rest, bank, okay),
                rw (here, before) refl,
                subst (λ n. IsReplayed bank ctx n (ev ∷ rest) (ev ∷ rest, bank, okay))
                    (sym (count ∙ ap (λ b. if b then 1 else 0) before))
                    (IsReplayed-idle bank ctx (ev ∷ rest) okay r (v, vs)),
              )
            ]
        | inr further ↦
            let ((rest', bank', okay'), goes_on, tail) =
              update_events-replay stop rest (i + 1) s.ctx s.bank (okay && s.okay) t st.ready vs in
            (
              (s.event ∷ rest', bank', okay'),
              rw (further, runs, goes_on) refl,
              subst (λ n. IsReplayed bank ctx n (ev ∷ rest) (s.event ∷ rest', bank', okay'))
                  (sym (before_stop_later stop.position stop.after i (length rest) further))
                  (IsReplayed-cons ctx (before_stop stop.position stop.after (i + 1) (length rest))
                    rest rest' bank' okay' okay' st u tail),
            )
      ]
