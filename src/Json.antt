-- ===== src/Json.antt =====
-- The values that the program gives to `json.dump`, and what is written with `indent=2`.
use mail_transporter.Base.{
  ℕ, zero, suc, ◌+◌, ◌-◌, ◌/◌, ◌%◌, ◌++◌, Bool, true, false, ◌||◌, not, [], ◌∷◌, Text, text,
  show_nat, rstrip, hex_digit, ltb, ◌==◌, if◌then◌else◌,
}

mutual
  pub data Value : Type 0 where
    null : Value
    boolean : Bool → Value
    number : ℕ → Value
    -- a number of seconds, rounded to milliseconds
    seconds : ℕ → Value
    string : Text → Value
    list : Values → Value
    dict : Members → Value

  pub data Values : Type 0 where
    end : Values
    value : Value → Values → Values

  -- The items of a dict, in their order.
  pub data Members : Type 0 where
    last : Members
    member : Text → Value → Members → Members

-- `'\\u{0:04x}'.format(c)`
unfoldable unicode : ℕ → Text
unicode c =
    92
    ∷ 117
    ∷ hex_digit (c / 4096 % 16)
    ∷ hex_digit (c / 256 % 16)
    ∷ hex_digit (c / 16 % 16)
    ∷ hex_digit (c % 16)
    ∷ []

-- A code point beyond the first plane is written as a pair of surrogates.
unfoldable surrogates : ℕ → Text
unfolding unicode
surrogates c = let v = c - 65536 in unicode (55296 + v / 1024 % 1024) ++ unicode (56320 + v % 1024)

-- One character of a string. `ascii` is the argument `ensure_ascii`.
unfoldable pub escaped : Bool → ℕ → Text
unfolding unicode surrogates
escaped ascii c =
    if c == 34 || c == 92
    then 92 ∷ c ∷ []
    else if c == 10
    then 92 ∷ 110 ∷ []
    else if c == 13
    then 92 ∷ 114 ∷ []
    else if c == 9
    then 92 ∷ 116 ∷ []
    else if c == 12
    then 92 ∷ 102 ∷ []
    else if c == 8
    then 92 ∷ 98 ∷ []
    else if ltb c 32
    then unicode c
    else if not ascii || ltb c 127
    then c ∷ []
    else if ltb c 65536
    then unicode c
    else surrogates c

unfoldable pub escaped_all : Bool → Text → Text
unfolding escaped
escaped_all ascii [] = []
escaped_all ascii (c ∷ s) = escaped ascii c ++ escaped_all ascii s

unfoldable pub quoted : Bool → Text → Text
unfolding escaped_all
quoted ascii s = 34 ∷ (escaped_all ascii s ++ (34 ∷ []))

abbrev pad : ℕ → Text
pad n = (48 + n / 100 % 10) ∷ (48 + n / 10 % 10) ∷ (48 + n % 10) ∷ []

-- The fraction has at least one digit.
abbrev or_zero : Text → Text
or_zero [] = 48 ∷ []
or_zero (c ∷ s) = c ∷ s

-- `repr` of a float with at most three decimals, below 10 ^ 16.
unfoldable pub show_seconds : ℕ → Text
unfolding show_nat rstrip
show_seconds n = show_nat (n / 1000) ++ (46 ∷ or_zero (rstrip (λ c. c == 48) (pad (n % 1000))))

-- A new line, with two blanks for each level.
unfoldable blanks : ℕ → Text
blanks zero = []
blanks (suc depth) = 32 ∷ 32 ∷ blanks depth

unfoldable pub line_break : ℕ → Text
unfolding blanks
line_break depth = 10 ∷ blanks depth

module _ (ascii : Bool) where
  unfoldable mutual
    unfolding text show_nat show_seconds quoted line_break

    pub written : ℕ → Value → Text
    written depth null = text "null"
    written depth (boolean true) = text "true"
    written depth (boolean false) = text "false"
    written depth (number n) = show_nat n
    written depth (seconds n) = show_seconds n
    written depth (string s) = quoted ascii s
    written depth (list end) = text "[]"
    written depth (list (value v vs)) =
        91
        ∷ (line_break (suc depth)
            ++ (written (suc depth) v
                ++ (written_values (suc depth) vs ++ (line_break depth ++ (93 ∷ [])))))
    written depth (dict last) = text "{}"
    written depth (dict (member key v members)) =
        123
        ∷ (line_break (suc depth)
            ++ (quoted ascii key
                ++ (58
                    ∷ 32
                    ∷ (written (suc depth) v
                        ++ (written_members (suc depth) members
                            ++ (line_break depth ++ (125 ∷ [])))))))

    -- The values after the first one.
    written_values : ℕ → Values → Text
    written_values depth end = []
    written_values depth (value v vs) =
        44 ∷ (line_break depth ++ (written depth v ++ written_values depth vs))

    pub written_members : ℕ → Members → Text
    written_members depth last = []
    written_members depth (member key v members) =
        44
        ∷ (line_break depth
            ++ (quoted ascii key ++ (58 ∷ 32 ∷ (written depth v ++ written_members depth members))))

-- `json.dumps(value, indent=2, ensure_ascii=ascii)`
unfoldable pub dumps : Bool → Value → Text
unfolding written
dumps ascii v = written ascii 0 v
