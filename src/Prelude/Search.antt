-- ===== src/Prelude/Search.antt =====
-- `strings.Contains`.
use Prim.Native.String.{String}
use mathlib.Core.Bool.{Bool, true, false}
use mathlib.Core.Option.{none, some}
use text.Mathlib.Text.{find?}

abbrev pub has_text : String → String → Bool
has_text s part = elim (find? s part) [ none ↦ false | some _ ↦ true ]
