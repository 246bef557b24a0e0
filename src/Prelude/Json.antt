-- ===== src/Prelude/Json.antt =====
-- Values of a dynamic language: JSON, and the numbers that JSON leaves out. An object is its entries
-- in order.
use Prim.Native.String.{String}
use mathlib.Core.Bool.{Bool}
use mathlib.Core.Option.{Option, none, some}
use pinout.Prelude.Tests.{if◌then◌else◌}
use pinout.Prelude.Equality.{◌==◌, string_eq}
use pinout.Prelude.Int.{Number}

mutual
  pub data Json : Type 0 where
    null : Json
    bool : Bool → Json
    num : Number → Json
    text : String → Json
    arr : Items → Json
    obj : Object → Json

  pub data Items : Type 0 where
    nil : Items
    cons : Json → Items → Items

  pub data Object : Type 0 where
    end : Object
    field : String → Json → Object → Object

-- `o[key]`; `none` is `undefined`.
unfoldable pub property : String → Object → Option Json
property key end = none
property key (field k v o) = if k == key then some v else property key o
