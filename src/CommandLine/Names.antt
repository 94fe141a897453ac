-- ===== src/CommandLine/Names.antt =====
-- strcmp(a, b) == 0
use Prim.Native.String.{String}
use text.Mathlib.Text.{◌==◌}
use xyz.Prelude.{Bool}

abbrev pub same_text : String → String → Bool
same_text a b = a == b
