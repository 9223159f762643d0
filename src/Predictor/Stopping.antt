-- ===== src/Predictor/Stopping.antt =====
-- Up to which event of the log the loops of src/oracle.c go.
use pcr_oracle.Common.{
  ℕ, suc, ◌+◌, ◌-◌, ◌≡◌, refl, true, false, Option, none, some, ltb, if◌then◌else◌, arith, Bool,
}
use pcr_oracle.Predictor.Update.{stops_at}

-- How many of `n` events from position `i` on stand in front of the stop, and with it where it is
-- processed too.
abbrev pub before_stop : Option ℕ → Bool → ℕ → ℕ → ℕ
before_stop none after i n = n
before_stop (some k) after i n = if ltb k i then n else k - i + (if after then 1 else 0)

pub before_stop_here :
    (position : Option ℕ) (after : Bool) (i n : ℕ)
    → stops_at (record { position = position; after = after }) i ≡ true
    → before_stop position after i (suc n) ≡ (if after then 1 else 0)
before_stop_here none after i n h = cc
before_stop_here (some k) true i n h = ground arith
before_stop_here (some k) false i n h = ground arith

pub before_stop_later :
    (position : Option ℕ) (after : Bool) (i n : ℕ)
    → stops_at (record { position = position; after = after }) i ≡ false
    → before_stop position after i (suc n) ≡ suc (before_stop position after (i + 1) n)
before_stop_later none after i n h = refl
before_stop_later (some k) true i n h = ground arith
before_stop_later (some k) false i n h = ground arith
