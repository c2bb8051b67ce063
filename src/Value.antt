-- ===== src/Value.antt =====
-- The Python values that event payloads hold, the tests that the runtimes make on them, and the
-- Python library functions that the runtimes call (a parameter of every model that uses them).
use phantom_runtime_lite.Prelude.{
  ◌^◌, String, Bool, true, false, ◌&&◌, Option, ltb_ℤ, leb_ℤ, ℤ, pos,
}

-- A double. Every finite one is a whole number of units of 2^-1074 (0.0 and -0.0 are one value:
-- they compare alike).
pub data Float : Type 0 where
  finite : ℤ → Float
  infinity minus_infinity nan : Float

mutual
  pub data Value : Type 0 where
    null : Value
    bool : Bool → Value
    int : ℤ → Value
    float : Float → Value
    str : String → Value
    list : Items → Value
    dict : Fields → Value

  pub data Items : Type 0 where
    nil : Items
    cons : Value → Items → Items

  pub data Fields : Type 0 where
    end : Fields
    field : String → Value → Fields → Fields

-- What `isinstance` is asked for; `number` is the tuple (int, float).
pub data FieldType : Type 0 where
  text number boolean mapping : FieldType

-- A Python bool is an int.
unfoldable pub isinstance : Value → FieldType → Bool
isinstance (str _) text = true
isinstance (bool _) number = true
isinstance (int _) number = true
isinstance (float _) number = true
isinstance (bool _) boolean = true
isinstance (dict _) mapping = true
isinstance _ _ = false

unit_scale : ℤ
unit_scale = pos (2 ^ 1074)

-- 0.0 <= v <= 1.0
unfoldable pub in_unit_interval : Value → Bool
unfolding unit_scale
in_unit_interval (bool _) = true
in_unit_interval (int n) = leb_ℤ (pos 0) n && leb_ℤ n (pos 1)
in_unit_interval (float (finite u)) = leb_ℤ (pos 0) u && leb_ℤ u unit_scale
in_unit_interval _ = false

-- v < 0
unfoldable pub is_negative : Value → Bool
is_negative (int n) = ltb_ℤ n (pos 0)
is_negative (float (finite u)) = ltb_ℤ u (pos 0)
is_negative (float minus_infinity) = true
is_negative _ = false

-- A `datetime`: whether it carries a UTC offset, and the microsecond that it stands for.
pub record Timestamp : Type 0 where
  pub aware : Bool
  pub instant : ℤ

-- `datetime.fromisoformat` (`none` is its ValueError), `str.strip` and `str.lower`.
pub record Python : Type 0 where
  pub fromisoformat : String → Option Timestamp
  pub strip : String → String
  pub lower : String → String
