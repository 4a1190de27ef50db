-- ===== src/Base/Chars.antt =====
-- Python's `str` as its list of code points.
use Prim.Native.Nat.{◌-◌, ℕ, zero, suc, ◌+◌, ◌/◌, ◌%◌}
use Prim.Native.Char.{code}
use Prim.Native.String.{String}
use mathlib.Core.Path.{◌≡◌, refl}
use mathlib.Core.Bool.{Bool, true, false, ◌&&◌, ◌||◌, not}
use mathlib.Core.Option.{Option, none, some}
use mathlib.Core.List.{List, [], ◌∷◌, map, reverse, ◌++◌}
use native.Mathlib.Omega.{arith}
use mail_transporter.Base.Tests.{ltb, leb, ◌==◌, if◌then◌else◌}
use mail_transporter.Base.Lists.{any, contains}

abbrev pub Text : Type 0
Text = List ℕ

-- A literal of the source.
unfoldable pub text : String → Text
text String.[] = []
text (String.◌∷◌ c s) = code c ∷ text s

unfoldable pub text_eq : Text → Text → Bool
text_eq [] [] = true
text_eq (x ∷ xs) (y ∷ ys) = x == y && text_eq xs ys
text_eq _ _ = false

pub text_eq_refl : (t : Text) → text_eq t t ≡ true
unfolding text_eq
text_eq_refl [] = refl
text_eq_refl (x ∷ xs) = ground (arith, text_eq_refl xs)

pub text_eq→eq : (s t : Text) → text_eq s t ≡ true → s ≡ t
unfolding text_eq
text_eq→eq [] [] h = refl
text_eq→eq [] (y ∷ ys) h = cc
text_eq→eq (x ∷ xs) [] h = cc
text_eq→eq (x ∷ xs) (y ∷ ys) h = ground (arith, text_eq→eq xs ys)

-- `str.lower`: the ASCII letters, and the Kelvin sign, which is the only other code point that
-- becomes an ASCII letter alone.
unfoldable pub lower_char : ℕ → ℕ
lower_char c = if leb 65 c && leb c 90 then c + 32 else if c == 8490 then 107 else c

unfoldable pub lower : Text → Text
unfolding lower_char
lower = map lower_char

-- `str.upper`: the ASCII letters, and the two other code points that become one ASCII letter.
unfoldable pub upper_char : ℕ → ℕ
upper_char c =
    if leb 97 c && leb c 122 then c - 32 else if c == 305 then 73 else if c == 383 then 83 else c

unfoldable pub upper : Text → Text
unfolding upper_char
upper = map upper_char

-- `x in xs` for texts.
unfoldable pub text_mem : Text → List Text → Bool
unfolding text_eq
text_mem t = any (text_eq t)

-- Truth of `str | None`: neither `None` nor empty.
abbrev pub truthy : Option Text → Bool
truthy none = false
truthy (some []) = false
truthy (some (_ ∷ _)) = true

-- `a or b` where `b` is a text.
abbrev pub or_text : Option Text → Text → Option Text
or_text none b = some b
or_text (some []) b = some b
or_text (some (c ∷ t)) b = some (c ∷ t)

-- `str(n)`, most significant digit first; the fuel bounds the number of digits.
decimal : ℕ → ℕ → Text → Text
decimal zero n acc = acc
decimal (suc fuel) n acc =
    let rest = decimal fuel (n / 10) ((48 + n % 10) ∷ acc) in
    if ltb n 10 then (48 + n) ∷ acc else rest

unfoldable pub show_nat : ℕ → Text
unfolding decimal
show_nat n = decimal (suc n) n []

unfoldable pub is_ascii : Text → Bool
is_ascii t = not (any (λ c. leb 128 c) t)

-- `s.startswith(prefix)`
unfoldable pub starts_with : Text → Text → Bool
starts_with [] s = true
starts_with (c ∷ prefix) [] = false
starts_with (c ∷ prefix) (d ∷ s) = c == d && starts_with prefix s

-- `part in s`
unfoldable pub occurs : Text → Text → Bool
unfolding starts_with
occurs part [] = starts_with part []
occurs part (c ∷ s) = starts_with part (c ∷ s) || occurs part s

-- The white space of `str.strip`.
unfoldable pub is_space : ℕ → Bool
is_space c =
    (leb 9 c && leb c 13)
    || ((leb 28 c && leb c 32)
        || (c == 133
            || (c == 160
                || (c == 5760
                    || ((leb 8192 c && leb c 8202)
                        || (c == 8232
                            || (c == 8233 || (c == 8239 || (c == 8287 || c == 12288)))))))))

unfoldable pub lstrip : (ℕ → Bool) → Text → Text
lstrip drops [] = []
lstrip drops (c ∷ s) = let rest = lstrip drops s in if drops c then rest else c ∷ s

unfoldable pub rstrip : (ℕ → Bool) → Text → Text
unfolding lstrip
rstrip drops s = reverse (lstrip drops (reverse s))

unfoldable pub strip : Text → Text
unfolding is_space lstrip rstrip
strip s = rstrip is_space (lstrip is_space s)

abbrev pub hex_digit : ℕ → ℕ
hex_digit n = if ltb n 10 then 48 + n else 87 + n

-- One character of `repr`, between quotes `q`.
unfoldable escaped : ℕ → ℕ → Text
escaped q c =
    if c == 92 || c == q
    then 92 ∷ c ∷ []
    else if c == 9
    then 92 ∷ 116 ∷ []
    else if c == 10
    then 92 ∷ 110 ∷ []
    else if c == 13
    then 92 ∷ 114 ∷ []
    else if ltb c 32 || c == 127
    then 92 ∷ 120 ∷ hex_digit (c / 16) ∷ hex_digit (c % 16) ∷ []
    else c ∷ []

unfoldable between : ℕ → Text → Text
unfolding escaped
between q [] = q ∷ []
between q (c ∷ s) = escaped q c ++ between q s

-- `repr(s)`, where every character beyond ASCII counts as printable.
unfoldable pub repr : Text → Text
unfolding between
repr s = let q = if contains 39 s && not (contains 34 s) then 34 else 39 in q ∷ between q s
