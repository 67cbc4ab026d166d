-- ===== src/Adaptive/Summary/Names.antt =====
-- The names that `codec_summary` of src/adaptive.rs lists.
use nexcomp.Base.{◌≡◌, ◌⊎◌, List, [], ◌∷◌}
use mathlib.Core.Logic.{◌↔◌}
use nexcomp.Adaptive.{String}
use nexcomp.Adaptive.Wire.{BlockInfo}
use nexcomp.Adaptive.Summary.Order.{codec_names, firsts}

-- The text is one of the list.
pub Among : String → List String → Type 0
Among codec [] = ⊥
Among codec (n ∷ names) = (n ≡ codec) ⊎ Among codec names

-- No text stands twice in the list.
pub AreDistinct : List String → Type 0
unfolding Among
AreDistinct [] = Unit {0}
AreDistinct (n ∷ names) = (¬ Among n names) × AreDistinct names

-- Each name stands once in the list, the names are those of the blocks' codecs, and they stand in
-- the order in which they first appear.
pub record AreNames (blocks : List BlockInfo) (names : List String) : Type 0 where
  pub distinct : AreDistinct names
  pub ordered : names ≡ firsts (codec_names blocks)
  pub same : (codec : String) → Among codec names ↔ Among codec (codec_names blocks)

-- What the loop has seen after some blocks: the names before, and those of the blocks.
record HasSeen (blocks : List BlockInfo) (names seen : List String) : Type 0 where
  distinct : AreDistinct seen
  used : (x : String) → Among x seen → Among x names ⊎ Among x (codec_names blocks)
  complete : (x : String) → Among x names ⊎ Among x (codec_names blocks) → Among x seen
