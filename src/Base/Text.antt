-- ===== src/Base/Text.antt =====
-- Text as the source tests it: emptiness, `strings.TrimSpace`, and the nullable columns of text.
use Prim.Native.Nat.{ℕ}
use Prim.Native.Char.{code}
use Prim.Native.String.{String}
use mathlib.Core.Path.{◌≡◌, refl}
use mathlib.Core.Bool.{Bool, true, false, ◌&&◌, ◌||◌}
use mathlib.Core.Option.{Option, none, some}
use baskety.Base.Tests.{leb, ◌==◌, if◌then◌else◌}

-- `s == ""`
unfoldable pub is_empty : String → Bool
is_empty String.[] = true
is_empty (String.◌∷◌ c s) = false

-- `unicode.IsSpace`, by code point.
unfoldable pub is_space : ℕ → Bool
is_space c =
    (leb 0x09 c && leb c 0x0d)
    || c == 0x20
    || c == 0x85
    || c == 0xa0
    || c == 0x1680
    || (leb 0x2000 c && leb c 0x200a)
    || c == 0x2028
    || c == 0x2029
    || c == 0x202f
    || c == 0x205f
    || c == 0x3000

-- `strings.TrimSpace(s) == ""`: the text holds nothing but white space.
unfoldable pub is_blank : String → Bool
unfolding is_space
is_blank String.[] = true
is_blank (String.◌∷◌ c s) = is_space (code c) && is_blank s

-- `shared.PtrStr`
unfoldable pub ptr_str : Option String → String
ptr_str none = ""
ptr_str (some s) = s

-- `shared.StrToPtr`
unfoldable pub str_to_ptr : String → Option String
unfolding is_empty
str_to_ptr s = if is_empty s then none else some s

-- What is written to a nullable text column is read back.
pub ptr_str-str_to_ptr : (s : String) → ptr_str (str_to_ptr s) ≡ s
unfolding ptr_str str_to_ptr
ptr_str-str_to_ptr String.[] = refl
ptr_str-str_to_ptr (String.◌∷◌ c s) = refl

trim_left : String → String
trim_left String.[] = ""
trim_left (String.◌∷◌ c s) =
    let rest = trim_left s in if is_space (code c) then rest else String.◌∷◌ c s

trim_right : String → String
trim_right String.[] = ""
trim_right (String.◌∷◌ c s) =
    let rest = trim_right s in if is_space (code c) && is_empty rest then "" else String.◌∷◌ c rest

-- `strings.TrimSpace`
unfoldable pub trim_space : String → String
unfolding trim_left trim_right
trim_space s = trim_right (trim_left s)

-- The characters of a text, against those of another.
unfoldable pub cut_prefix : String → String → Option String
cut_prefix String.[] s = some s
cut_prefix (String.◌∷◌ p ps) String.[] = none
cut_prefix (String.◌∷◌ p ps) (String.◌∷◌ c s) =
    let rest = cut_prefix ps s in if code p == code c then rest else none
