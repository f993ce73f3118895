-- ===== src/Pipeline/Compare.antt =====
-- app/detection.py, compare: one comparison of a feature with the value of a rule. A comparison that
-- Python refuses with a TypeError, KeyError or IndexError is false.
use sentinel_auth.Prelude.{
  ℕ, zero, suc, String, Bool, true, false, not, ◌||◌, Option, none, some, if◌then◌else◌, ◌==◌,
  string_eq,
}
use sentinel_auth.Policies.Config.{Json, Items, nil, cons, Arithmetic}

module _ (A : Arithmetic) where
  -- Python's bool is an int.
  abbrev pub number_of_bool : Bool → A.Number
  number_of_bool true = A.decimal 1 0
  number_of_bool false = A.decimal 0 0

  abbrev pub numeric : Json A.Number → Option A.Number
  numeric (Json.number x) = some x
  numeric (Json.boolean b) = some (number_of_bool b)
  numeric _ = none

  abbrev equals_number : A.Number → Option A.Number → Bool
  equals_number x none = false
  equals_number x (some y) = A.eq x y

  -- `actual == expected`
  abbrev equals : Option A.Number → Json A.Number → Bool
  equals none Json.null = true
  equals none _ = false
  equals (some x) v = equals_number x (numeric v)

  abbrev any_equal : Option A.Number → Items A.Number → Bool
  any_equal actual nil = false
  any_equal actual (cons v rest) = equals actual v || any_equal actual rest

  abbrev is_member : Option A.Number → Json A.Number → Bool
  is_member actual (Json.array items) = any_equal actual items
  is_member actual _ = false

  abbrev item : ℕ → Items A.Number → Option (Json A.Number)
  item i nil = none
  item zero (cons v rest) = some v
  item (suc i) (cons v rest) = item i rest

  abbrev numeric_item : Option (Json A.Number) → Option A.Number
  numeric_item none = none
  numeric_item (some v) = numeric v

  -- `expected[i]` as a number; none where the comparison with it raises.
  abbrev bound : ℕ → Json A.Number → Option A.Number
  bound i (Json.array items) = numeric_item (item i items)
  bound i _ = none

  abbrev below : A.Number → Option A.Number → Option Bool
  below x none = none
  below x (some high) = some (A.le x high)

  -- `expected[0] <= actual <= expected[1]`: the upper bound is read only when the lower one holds.
  abbrev within : A.Number → Json A.Number → Option A.Number → Option Bool
  within x expected none = none
  within x expected (some low) = if A.le low x then below x (bound 1 expected) else some false

  abbrev is_between : Option A.Number → Json A.Number → Option Bool
  is_between none expected = none
  is_between (some x) expected = within x expected (bound 0 expected)

  abbrev holds : Option Bool → Bool
  holds none = false
  holds (some b) = b

  abbrev fails : Option Bool → Bool
  fails none = false
  fails (some b) = not b

  abbrev ordered : (A.Number → A.Number → Bool) → Option A.Number → Option A.Number → Bool
  ordered test (some x) (some y) = test x y
  ordered test _ _ = false

  unfoldable pub compare : Option A.Number → String → Json A.Number → Bool
  compare actual operator expected =
      if operator == "=="
      then equals actual expected
      else (if operator == "!="
          then not (equals actual expected)
          else (if operator == "in"
              then is_member actual expected
              else (if operator == "between"
                  then holds (is_between actual expected)
                  else (if operator == "not_between"
                      then fails (is_between actual expected)
                      else (if operator == ">"
                          then ordered (λ x y. A.lt y x) actual (numeric expected)
                          else (if operator == ">="
                              then ordered (λ x y. A.le y x) actual (numeric expected)
                              else (if operator == "<"
                                  then ordered A.lt actual (numeric expected)
                                  else (if operator == "<="
                                      then ordered A.le actual (numeric expected)
                                      else false))))))))
