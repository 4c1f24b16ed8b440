-- ===== src/Common/Float.antt =====
-- Go's float64 as an interface: its values are not computed.
use btcpool.Common.{Option}
use btcpool.Common.Int.{ℤ}
use btcpool.Common.Bytes.{Bytes}

pub record Float64 : Type 1 where
  pub Float : Type 0
  -- `float64(n)` of an int64
  pub of_int : ℤ → Float
  -- `int64(x)`
  pub to_int : Float → ℤ
  pub add : Float → Float → Float
  pub mul : Float → Float → Float
  pub div : Float → Float → Float
  -- `math.Pow`
  pub pow : Float → Float → Float
  -- a constant of the source, by its text
  pub literal : Bytes → Float
  -- `strconv.ParseFloat(s, 64)`; `none` is an error
  pub parse_float : Bytes → Option Float
