-- ===== src/Base/Split.antt =====
-- `split` of Qt's texts.
use Prim.Native.Nat.{ℕ}
use mathlib.Core.List.{List, [], ◌∷◌}
use remmina_krunner.Base.Tests.{if◌then◌else◌, ◌==◌}
use remmina_krunner.Base.Texts.{Text}

-- `text.split(separator, Qt::KeepEmptyParts)`; there is always a first part.
abbrev pub add_first : ℕ → List Text → List Text
add_first c [] = (c ∷ []) ∷ []
add_first c (part ∷ parts) = (c ∷ part) ∷ parts

unfoldable pub split : ℕ → Text → List Text
split separator [] = [] ∷ []
split separator (c ∷ rest) =
    let parts = split separator rest in if c == separator then [] ∷ parts else add_first c parts
