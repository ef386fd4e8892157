-- ===== src/Prelude/Json.antt =====
-- The Python values that the `json` package reads and writes. A number holds its literal.
use Prim.Native.String.{String}
use text.Mathlib.Text.{◌==◌ as str_eq}
use mathlib.Core.Option.{Option, none, some}
use electripy_ai.Prelude.Tests.{if◌then◌else◌}

mutual
  pub data Json : Type 0 where
    null true_json false_json : Json
    int float str : String → Json
    array : Items → Json
    object : Fields → Json

  pub data Items : Type 0 where
    no_items : Items
    item : Json → Items → Items

  pub data Fields : Type 0 where
    no_fields : Fields
    field : String → Json → Fields → Fields

-- `dict.get`: in a Python dictionary no key stands twice.
abbrev pub get_field : String → Fields → Option Json
get_field key no_fields = none
get_field key (field k v fs) = if str_eq k key then some v else get_field key fs

abbrev pub append_fields : Fields → Fields → Fields
append_fields no_fields fs = fs
append_fields (field k v rest) fs = field k v (append_fields rest fs)
