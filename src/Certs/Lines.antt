-- ===== src/Certs/Lines.antt =====
-- A text of several lines, as a raw literal of the source spells it.
use Prim.Native.String.{◌++◌ as str_append}
use ebbflow.Prelude.{String, List, [], ◌∷◌}

-- Each line starts after a line break, so the first one is empty; the text ends with one.
abbrev pub text_of : List String → String
text_of [] = "\n"
text_of (line ∷ []) = str_append line "\n"
text_of (line ∷ next ∷ lines) = str_append line (str_append "\n" (text_of (next ∷ lines)))
