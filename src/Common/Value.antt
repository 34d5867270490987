-- ===== src/Common/Value.antt =====
-- Values of a type that the program does not know (`unknown`): parsed JSON, the results of the
-- contract client, the fields of a third party's response.
use Prim.Native.Nat.{ℕ, zero, suc}
use Prim.Native.String.{String}
use mathlib.Core.Bool.{Bool}
use text.Mathlib.Text.{◌==◌}
use stellar_tip_api.Common.Tests.{if◌then◌else◌}
use stellar_tip_api.Common.Num.{ℤ, Num}

mutual
  pub data Value : Type 0 where
    undefined : Value
    null : Value
    bool : Bool → Value
    number : Num → Value
    bigint : ℤ → Value
    string : String → Value
    array : Values → Value
    object : Fields → Value

  pub data Values : Type 0 where
    nil : Values
    cons : Value → Values → Values

  pub data Fields : Type 0 where
    end : Fields
    field : String → Value → Fields → Fields

-- `xs[i]`
unfoldable pub at : Values → ℕ → Value
at nil i = undefined
at (cons v vs) zero = v
at (cons v vs) (suc i) = at vs i

-- `obj[key]`
unfoldable pub property : Fields → String → Value
property end key = undefined
property (field k v fs) key = if k == key then v else property fs key

-- `v ?? w`
abbrev pub or_nullish : Value → Value → Value
or_nullish undefined w = w
or_nullish null w = w
or_nullish v w = v
