-- ===== src/Handlers/Amounts.antt =====
-- parseDollarsToMinor of handlers/wallets.go, with strconv.ParseInt at base 10 and 63 bits.
use gig.Base.{
  ℕ, ◌+◌, ◌-◌, ◌*◌, Bool, ◌&&◌, Option, none, some, [], ◌∷◌, ◌++◌, length, ltb, leb, ◌==◌,
  if◌then◌else◌,
}
use gig.Base.Int.{ℤ, pos, sub_ℕ, ◌+ℤ◌, ◌*ℤ◌, ltb_ℤ, wrap64}
use gig.Base.Text.{Bytes, codes, trim_space, is_empty}

abbrev pub is_digit : ℕ → Bool
is_digit b = leb b'0' b && leb b b'9'

-- The digits that are left, after a number so far.
unfoldable pub parse_digits : ℕ → Bytes → Option ℕ
parse_digits n [] = some n
parse_digits n (b ∷ s) =
    let rest = parse_digits (n * 10 + (b - b'0')) s in if is_digit b then rest else none

abbrev pub parse_natural : Bytes → Option ℕ
parse_natural [] = none
parse_natural (b ∷ s) = parse_digits 0 (b ∷ s)

abbrev pub positive_int63 : Option ℕ → Option ℤ
positive_int63 none = none
positive_int63 (some n) = if ltb n 0x4000000000000000 then some (pos n) else none

abbrev pub negative_int63 : Option ℕ → Option ℤ
negative_int63 none = none
negative_int63 (some n) = if leb n 0x4000000000000000 then some (sub_ℕ 0 n) else none

-- strconv.ParseInt(s, 10, 63); a sign may stand in front.
unfoldable pub parse_int63 : Bytes → Option ℤ
unfolding parse_digits
parse_int63 [] = none
parse_int63 (b ∷ s) =
    if b == b'-'
    then negative_int63 (parse_natural s)
    else if b == b'+'
    then positive_int63 (parse_natural s)
    else positive_int63 (parse_natural (b ∷ s))

-- strings.Cut(s, ".")
unfoldable pub cut_dot : Bytes → Bytes × Option Bytes
cut_dot [] = ([], none)
cut_dot (b ∷ s) =
    let (whole, frac) = cut_dot s in if b == b'.' then ([], some s) else (b ∷ whole, frac)

abbrev pub cents_text : Option Bytes → Bytes
cents_text none = codes "00"
cents_text (some frac) = if length frac == 1 then frac ++ codes "0" else frac

-- `w*100 + f`, if the two are in range.
abbrev pub to_minor : Option ℤ → Option ℤ → Option ℤ
to_minor (some w) (some f) =
    if ltb_ℤ w (pos 0)
    then none
    else if ltb_ℤ f (pos 0)
    then none
    else if ltb_ℤ (pos 99) f
    then none
    else some (wrap64 (wrap64 (w *ℤ pos 100) +ℤ f))
to_minor _ _ = none

abbrev pub join_parts : Bytes → Bytes → Option ℤ
join_parts whole frac =
    if length frac == 2 then to_minor (parse_int63 whole) (parse_int63 frac) else none

-- parseDollarsToMinor
unfoldable pub parse_dollars_to_minor : Bytes → Option ℤ
unfolding trim_space parse_int63 cut_dot wrap64 ◌+ℤ◌ ◌*ℤ◌
parse_dollars_to_minor text =
    let s = trim_space text in
    if is_empty s then none else let (whole, frac) = cut_dot s in join_parts whole (cents_text frac)
