-- ===== src/Common/Text.antt =====
-- Text: bytes where the code walks them, and native strings where it compares whole texts.
use Prim.Native.Nat.{ℕ}
use Prim.Native.Char.{code}
use mathlib.Core.Path.{◌≡◌}
use mathlib.Core.Bool.{false}
use mathlib.Core.Logic.{◌≢◌}
use mathlib.Core.List.{List, [], ◌∷◌}
use native.Mathlib.Omega.{arith}
use warmbly_go.Common.Tests.{if◌then◌else◌}
pub use Prim.Native.String.{String, ◌++◌ as join}
unfoldable pub use text.Mathlib.Text.{◌==◌ as str_eq}
pub use text.Mathlib.TextEquality.{eq_iff}

abbrev pub Bytes : Type 0
Bytes = List ℕ

-- The code points of a text: its bytes, if it is ASCII.
abbrev pub codes : String → Bytes
codes String.[] = []
codes (String.◌∷◌ c s) = code c ∷ codes s

pub str_eq_ne : (s t : String) → s ≢ t → str_eq s t ≡ false
str_eq_ne s t h = ground (arith, eq_iff s t)

-- A Go map with text keys, as a function; `none` is a missing key.
module _ {ℓ} {V : Type ℓ} where
  abbrev pub put : (String → V) → String → V → String → V
  put m k v j = if str_eq j k then v else m j
