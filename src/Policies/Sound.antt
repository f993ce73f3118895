-- ===== src/Policies/Sound.antt =====
-- A resolved configuration is one that scoring can use.
use sentinel_auth.Prelude.{true, false, ◌&&◌, ◌≡◌, Option, none, some, ◌⊎◌}
use sentinel_auth.Policies.Config.{
  Arithmetic, Weights, Thresholds, in_unit, default_weights, default_thresholds,
}

module _ (A : Arithmetic) where
  -- Weights in [0, 1], positive, whose sum is 1.0 up to 1e-6; or the defaults.
  abbrev pub AreWeights : Weights A.Number → Type 0
  AreWeights w =
      ((in_unit A w.rule ≡ true)
        × (in_unit A w.ml ≡ true)
        × (A.lt (A.decimal 0 0) w.rule && A.lt (A.decimal 0 0) w.ml ≡ true)
        × (A.lt (A.decimal 1 6) (A.abs (A.sub (A.add w.rule w.ml) (A.decimal 1 0))) ≡ false))
      ⊎ (w ≡ default_weights A)

  -- Thresholds in [0, 1] in ascending order; or the defaults.
  abbrev pub AreThresholds : Thresholds A.Number → Type 0
  AreThresholds t =
      ((in_unit A t.low ≡ true)
        × (in_unit A t.medium ≡ true)
        × (in_unit A t.high ≡ true)
        × (A.le t.low t.medium && A.le t.medium t.high ≡ true))
      ⊎ (t ≡ default_thresholds A)

  -- A number that was parsed.
  abbrev Parsed : Option A.Number → Type 0
  Parsed none = Unit
  Parsed (some x) = in_unit A x ≡ true
