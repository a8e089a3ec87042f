-- ===== src/Common/Json.antt =====
-- JavaScript values as the program handles them. What belongs to the engine (doubles, property
-- access on arrays and texts, the `vm` module) is a parameter.
use mathlib.Core.Bool.{Bool}
use mathlib.Core.Option.{Option, none, some}
use Prim.Native.String.{String}
use eyeflow.Common.Tests.{if◌then◌else◌}
use eyeflow.Common.Eq.{◌==◌, string_equality}

mutual
  pub data Json (N : Type 0) : Type 0 where
    null : Json N
    bool : Bool → Json N
    num : N → Json N
    text : String → Json N
    arr : Items N → Json N
    obj : Fields N → Json N

  pub data Items (N : Type 0) : Type 0 where
    nil : Items N
    item : Json N → Items N → Items N

  pub data Fields (N : Type 0) : Type 0 where
    end : Fields N
    field : String → Json N → Fields N → Fields N

-- The engine: comparison of doubles as written in the source, `parseFloat` (of `undefined` too),
-- property access on a value that is no plain object, and evaluation of an expression over `output`.
pub record Engine : Type 1 where
  pub Num : Type 0
  pub zero_num : Num
  pub gt : Num → Num → Bool
  pub ge : Num → Num → Bool
  pub lt : Num → Num → Bool
  pub le : Num → Num → Bool
  pub eq : Num → Num → Bool
  pub parse_float : Option String → Num
  pub member : Json Num → String → Option (Json Num)
  pub evaluate : String → Json Num → Bool

unfoldable pub own : {N : Type 0} → Fields N → String → Option (Json N)
own end k = none
own (field j v fs) k = if j == k then some v else own fs k

-- `v[k]` for a `v` that is not null; a plain object answers by its own properties.
unfoldable pub get_member : (js : Engine) → Json js.Num → String → Option (Json js.Num)
unfolding own
get_member js (obj fs) k = own fs k
get_member js v k = js.member v k
