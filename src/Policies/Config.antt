-- ===== src/Policies/Config.antt =====
-- app/detection.py, resolve_config: the weights and thresholds of a policy, checked. The texts of the
-- problems are constructors.
use sentinel_auth.Prelude.{
  ℕ, suc, String, Bool, ◌&&◌, Option, none, some, List, [], ◌∷◌, ◌++◌, if◌then◌else◌, ◌==◌,
  string_eq,
}

-- A JSON value. A truth value is no number, although Python's bool is an int.
mutual
  pub data Json (N : Type 0) : Type 0 where
    null : Json N
    boolean : Bool → Json N
    number : N → Json N
    text : String → Json N
    array : Items N → Json N
    object : Fields N → Json N

  pub data Items (N : Type 0) : Type 0 where
    nil : Items N
    cons : Json N → Items N → Items N

  pub data Fields (N : Type 0) : Type 0 where
    end : Fields N
    field : String → Json N → Fields N → Fields N

-- The numbers of Python and their operations; `decimal m n` is the literal m / 10 ^ n, `seconds` the
-- `total_seconds()` of a number of microseconds, `sum` and `truncate` are Python's `sum` and `int`,
-- `round4 x` is `round(x, 4)`, `fixed4 x` the text `f"{x:.4f}"`, and `str` Python's `str` of a JSON
-- value that is no text.
pub record Arithmetic : Type 1 where
  pub Number : Type 0
  pub le : Number → Number → Bool
  pub lt : Number → Number → Bool
  pub eq : Number → Number → Bool
  pub add : Number → Number → Number
  pub sub : Number → Number → Number
  pub mul : Number → Number → Number
  pub div : Number → Number → Number
  pub abs : Number → Number
  pub sum : List Number → Number
  pub decimal : ℕ → ℕ → Number
  pub of_nat : ℕ → Number
  pub seconds : ℕ → Number
  pub truncate : Number → Number
  pub round4 : Number → Number
  -- A column NUMERIC(p, s): the value that it holds, none when there is no room for it.
  pub numeric : (p s : ℕ) → Number → Option Number
  pub fixed4 : Number → String
  pub str : Json Number → String

module _ {N : Type 0} where
  -- `value.get(key)`, or None.
  unfoldable pub lookup : String → Fields N → Option (Json N)
  lookup key end = none
  lookup key (field k v rest) = let later = lookup key rest in if k == key then some v else later

  unfoldable pub item_count : Items N → ℕ
  item_count nil = 0
  item_count (cons _ rest) = suc (item_count rest)

pub data Problem : Type 0 where
  not_a_number : (section key : String) → Problem
  outside_unit : (section key : String) → Problem
  weights_sum : Problem
  incomplete : (section : String) → Problem
  not_an_object : (section : String) → Problem
  thresholds_order : Problem
  missing_field : (key : String) → Problem
  unknown_feature : Problem
  unsupported_operator : Problem
  range_value : Problem
  in_value : Problem

pub record Weights (N : Type 0) : Type 0 where
  pub rule : N
  pub ml : N

pub record Thresholds (N : Type 0) : Type 0 where
  pub low : N
  pub medium : N
  pub high : N

pub record ResolvedConfig (N : Type 0) : Type 0 where
  pub weights : Weights N
  pub thresholds : Thresholds N

module _ (A : Arithmetic) where
  abbrev pub in_unit : A.Number → Bool
  in_unit x = A.le (A.decimal 0 0) x && A.le x (A.decimal 1 0)

  abbrev checked_number : String → String → Option (Json A.Number) → Option A.Number × List Problem
  checked_number section key (some (Json.number x)) =
      if in_unit x then (some x, []) else (none, outside_unit section key ∷ [])
  checked_number section key _ = (none, not_a_number section key ∷ [])

  abbrev pub parse : String → String → Fields A.Number → Option A.Number × List Problem
  parse section key fields = checked_number section key (lookup key fields)

  abbrev pub default_weights : Weights A.Number
  default_weights = record { rule = A.decimal 4 1; ml = A.decimal 6 1 }

  abbrev pub default_thresholds : Thresholds A.Number
  default_thresholds = record {
    low = A.decimal 25 2;
    medium = A.decimal 50 2;
    high = A.decimal 75 2;
  }

  -- Both weights are positive, and their sum is 1.0 up to 1e-6.
  abbrev pub judge_weights : Option A.Number → Option A.Number → Weights A.Number × List Problem
  judge_weights (some rule) (some ml) =
      if A.lt (A.decimal 0 0) rule && A.lt (A.decimal 0 0) ml
      then (if A.lt (A.decimal 1 6) (A.abs (A.sub (A.add rule ml) (A.decimal 1 0)))
          then (default_weights, weights_sum ∷ [])
          else (record { rule = rule; ml = ml }, []))
      else (default_weights, incomplete "weights" ∷ [])
  judge_weights none none = (default_weights, [])
  judge_weights _ _ = (default_weights, incomplete "weights" ∷ [])

  abbrev pub resolve_weights : Option (Json A.Number) → Weights A.Number × List Problem
  resolve_weights none = (default_weights, [])
  resolve_weights (some Json.null) = (default_weights, [])
  resolve_weights (some (Json.object fields)) =
      let (rule, p) = parse "weights" "rule" fields in
      let (ml, q) = parse "weights" "ml" fields in
      let (weights, r) = judge_weights rule ml in (weights, p ++ (q ++ r))
  resolve_weights (some _) = (default_weights, not_an_object "weights" ∷ [])

  abbrev pub judge_thresholds :
      Option A.Number → Option A.Number → Option A.Number → Thresholds A.Number × List Problem
  judge_thresholds (some low) (some medium) (some high) =
      if A.le low medium && A.le medium high
      then (record { low = low; medium = medium; high = high }, [])
      else (default_thresholds, thresholds_order ∷ [])
  judge_thresholds none none none = (default_thresholds, [])
  judge_thresholds _ _ _ = (default_thresholds, incomplete "thresholds" ∷ [])

  abbrev pub resolve_thresholds : Option (Json A.Number) → Thresholds A.Number × List Problem
  resolve_thresholds none = (default_thresholds, [])
  resolve_thresholds (some Json.null) = (default_thresholds, [])
  resolve_thresholds (some (Json.object fields)) =
      let (low, p) = parse "thresholds" "low" fields in
      let (medium, q) = parse "thresholds" "medium" fields in
      let (high, r) = parse "thresholds" "high" fields in
      let (thresholds, s) = judge_thresholds low medium high in (thresholds, p ++ (q ++ (r ++ s)))
  resolve_thresholds (some _) = (default_thresholds, not_an_object "thresholds" ∷ [])

  abbrev pub section_of : String → Json A.Number → Option (Json A.Number)
  section_of key (Json.object fields) = lookup key fields
  section_of key _ = none

  -- A configuration that is not an object counts as an empty one.
  unfoldable pub resolve_config : Json A.Number → ResolvedConfig A.Number × List Problem
  resolve_config raw =
      let (weights, p) = resolve_weights (section_of "weights" raw) in
      let (thresholds, q) = resolve_thresholds (section_of "thresholds" raw) in
      (record { weights = weights; thresholds = thresholds }, p ++ q)
