-- ===== src/Prelude/Text.antt =====
-- `str.lower` and `str.strip` on texts: the letters and the white space are those of ASCII.
use Prim.Native.Char.{Char, code}
use Prim.Native.String.{String}
use mathlib.Core.Bool.{Bool, true, false, ◌&&◌, ◌||◌}
use mathlib.Core.List.{List, [], ◌∷◌}
use mathlib.Core.Path.{◌≡◌, refl}
use native.Mathlib.Omega.{arith}
use openring.Prelude.Tests.{beq, leb, if◌then◌else◌}
use text.Mathlib.Text.{◌==◌}

abbrev capitals : List (Char × Char)
capitals =
    ("A", "a")
    ∷ ("B", "b")
    ∷ ("C", "c")
    ∷ ("D", "d")
    ∷ ("E", "e")
    ∷ ("F", "f")
    ∷ ("G", "g")
    ∷ ("H", "h")
    ∷ ("I", "i")
    ∷ ("J", "j")
    ∷ ("K", "k")
    ∷ ("L", "l")
    ∷ ("M", "m")
    ∷ ("N", "n")
    ∷ ("O", "o")
    ∷ ("P", "p")
    ∷ ("Q", "q")
    ∷ ("R", "r")
    ∷ ("S", "s")
    ∷ ("T", "t")
    ∷ ("U", "u")
    ∷ ("V", "v")
    ∷ ("W", "w")
    ∷ ("X", "x")
    ∷ ("Y", "y")
    ∷ ("Z", "z")
    ∷ []

lower_by : List (Char × Char) → Char → Char
lower_by [] c = c
lower_by ((big, small) ∷ l) c = if beq (code big) (code c) then small else lower_by l c

unfoldable pub lower : String → String
unfolding lower_by
lower String.[] = String.[]
lower (String.◌∷◌ c s) = String.◌∷◌ (lower_by capitals c) (lower s)

is_space : Char → Bool
is_space c = beq (code c) 32 || (leb 9 (code c) && leb (code c) 13)

lstrip : String → String
unfolding is_space
lstrip String.[] = String.[]
lstrip (String.◌∷◌ c s) = if is_space c then lstrip s else String.◌∷◌ c s

rstrip : String → String
unfolding is_space
rstrip String.[] = String.[]
rstrip (String.◌∷◌ c s) =
    let rest = rstrip s in if rest == "" && is_space c then String.[] else String.◌∷◌ c rest

unfoldable pub strip : String → String
unfolding lstrip rstrip
strip s = rstrip (lstrip s)

-- s.startswith(t)
unfoldable pub begins_with : String → String → Bool
begins_with s String.[] = true
begins_with String.[] (String.◌∷◌ d t) = false
begins_with (String.◌∷◌ c s) (String.◌∷◌ d t) = beq (code c) (code d) && begins_with s t

-- s + t
unfoldable pub join : String → String → String
join String.[] t = t
join (String.◌∷◌ c s) t = String.◌∷◌ c (join s t)

pub begins_with-join : (s t : String) → begins_with (join s t) s ≡ true
unfolding begins_with join
begins_with-join String.[] t = refl
begins_with-join (String.◌∷◌ c s) t = ground (arith, begins_with-join s t)

-- `t in s`
unfoldable pub contains : String → String → Bool
unfolding begins_with
contains String.[] t = t == ""
contains (String.◌∷◌ c s) t = begins_with (String.◌∷◌ c s) t || contains s t
