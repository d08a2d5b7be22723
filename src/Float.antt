-- ===== src/Float.antt =====
-- `float64`, as far as the program compares and stores it. Every finite value is a whole multiple of
-- 2 ^ -1074, and `finite k` is k times that; the two zeros are one value, as for `==` and `<`.
use turnstile_appcheck_gatew.Prelude.{◌^◌, Bool, true, false, ◌&&◌, ℤ, pos, ltb_ℤ, leb_ℤ}

pub data Float64 : Type 0 where
  nan : Float64
  neg_inf : Float64
  finite : ℤ → Float64
  pos_inf : Float64

abbrev pub zero_rate : Float64
zero_rate = finite (pos 0)

abbrev pub one_rate : Float64
one_rate = finite (pos (2 ^ 1074))

-- a < b; false if either is not a number
unfoldable pub lt_float : Float64 → Float64 → Bool
lt_float nan b = false
lt_float a nan = false
lt_float neg_inf neg_inf = false
lt_float neg_inf b = true
lt_float pos_inf b = false
lt_float (finite a) (finite b) = ltb_ℤ a b
lt_float (finite a) pos_inf = true
lt_float (finite a) neg_inf = false

-- a <= b; false if either is not a number
unfoldable pub le_float : Float64 → Float64 → Bool
le_float nan b = false
le_float a nan = false
le_float neg_inf b = true
le_float pos_inf pos_inf = true
le_float pos_inf b = false
le_float (finite a) (finite b) = leb_ℤ a b
le_float (finite a) pos_inf = true
le_float (finite a) neg_inf = false

-- a == 0
unfoldable pub is_zero : Float64 → Bool
is_zero (finite a) = leb_ℤ a (pos 0) && leb_ℤ (pos 0) a
is_zero _ = false
