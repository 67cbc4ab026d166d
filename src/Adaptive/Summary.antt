-- ===== src/Adaptive/Summary.antt =====
-- What src/adaptive.rs says of a file without decoding it: `container_format` and `codec_summary`.
pub mod Order
pub mod Names
use nexcomp.Base.{
  Bool, true, false, Option, none, some, List, [], ◌∷◌, if◌then◌else◌, Result, ok, ◌>>=◌,
}
use Prim.Native.String.{◌++◌}
use text.Mathlib.Text.{◌==◌}
use nexcomp.Base.Words.{Bytes}
use nexcomp.Codecs.Bcj.{starts_with}
use nexcomp.Adaptive.{name, String, AdaptiveError}
use nexcomp.Adaptive.Wire.{BlockInfo, nx13, nx14, nx15, parse_blocks}

unfoldable pub container_format : Bytes → Option String
container_format payload =
    if starts_with payload nx13
    then some "NX13"
    else if starts_with payload nx14
    then some "NX14"
    else if starts_with payload nx15
    then some "NX15"
    else none

contains : List String → String → Bool
contains [] codec = false
contains (n ∷ names) codec = let rest = contains names codec in if n == codec then true else rest

snoc : List String → String → List String
snoc [] codec = codec ∷ []
snoc (n ∷ names) codec = n ∷ snoc names codec

-- The names of the codecs in the order in which they first appear.
pub first_seen : List BlockInfo → List String → List String
unfolding contains snoc
first_seen [] names = names
first_seen (block ∷ blocks) names =
    first_seen blocks
      (if contains names (name block.codec) then names else snoc names (name block.codec))

join : String → List String → String
join first [] = first
join first (n ∷ names) = first ++ ("+" ++ join n names)

pub describe : List String → String
unfolding join
describe [] = "none"
describe (single ∷ []) = single
describe (first ∷ (second ∷ names)) = "Mixed(" ++ (join first (second ∷ names) ++ ")")

pub codec_summary : Bytes → Result AdaptiveError String
unfolding first_seen describe
codec_summary payload = do parsed ← parse_blocks payload; ok (describe (first_seen parsed.1 []))
