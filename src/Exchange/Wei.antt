-- ===== src/Exchange/Wei.antt =====
-- internal/exchange/wei.go: amounts of wei as decimal texts and as `big.Int`. `SetString(s, 10)`
-- reads an optional sign and at least one decimal digit, and nothing else.
pub mod RoundTrip
use gin_demo.Prelude.{
  ℕ, zero, suc, ◌+◌, ◌-◌, ◌*◌, ◌/◌, ◌%◌, Bool, true, false, not, ◌&&◌, Option, none, some, List, [],
  ◌∷◌, ltb, leb, ◌==◌, if◌then◌else◌, refl, ◌≡◌,
}
use gin_demo.Prelude.Int.{ℤ, pos, negsuc, ◌+ℤ◌, ◌-ℤ◌, neg, is_negative, leb_ℤ, pos_part, neg_part}
use gin_demo.Prelude.Text.{Text, codes}
use gin_demo.Sql.{Result, ok, err, invalid_wei, insufficient_balance}

unfoldable pub wei_zero : ℤ
wei_zero = pos 0

-- The digits of `n` in front of `out`; as many rounds as `n` are enough.
unfoldable pub digits : ℕ → ℕ → Text → Text
digits zero n out = out
digits (suc rounds) n out = elim (n == 0) [
  | true ↦ out
  | false ↦ digits rounds (n / 10) ((b'0' + n % 10) ∷ out)
]

unfoldable pub decimal : ℕ → Text
unfolding digits
decimal n = if n == 0 then b'0' ∷ [] else digits n n []

unfoldable pub scan : ℕ → Text → Option ℕ
scan n [] = some n
scan n (c ∷ s) =
    let rest = scan (n * 10 + (c - b'0')) s in if leb b'0' c && leb c b'9' then rest else none

unfoldable pub unsigned : Text → Option ℕ
unfolding scan
unsigned [] = none
unsigned (c ∷ s) = scan 0 (c ∷ s)

abbrev pub negated : Option ℕ → Option ℤ
negated none = none
negated (some zero) = some (pos 0)
negated (some (suc n)) = some (negsuc n)

abbrev pub positive : Option ℕ → Option ℤ
positive none = none
positive (some n) = some (pos n)

-- `big.Int.SetString` in base 10
unfoldable pub set_string : Text → Option ℤ
unfolding unsigned
set_string [] = none
set_string (c ∷ s) =
    if c == b'-'
    then negated (unsigned s)
    else if c == b'+'
    then positive (unsigned s)
    else positive (unsigned (c ∷ s))

abbrev pub checked_sign : Option ℤ → Result ℤ
checked_sign none = err invalid_wei
checked_sign (some v) = if is_negative v then err invalid_wei else ok v

unfoldable pub parse_wei : Text → Result ℤ
unfolding set_string
parse_wei s = checked_sign (set_string s)

-- `big.Int.String`
unfoldable pub big_string : ℤ → Text
unfolding decimal
big_string (pos n) = decimal n
big_string (negsuc n) = b'-' ∷ decimal (suc n)

-- a nil pointer is `none`
unfoldable pub wei_string : Option ℤ → Text
unfolding big_string
wei_string none = b'0' ∷ []
wei_string (some v) = big_string v

unfoldable pub wei_add : ℤ → ℤ → ℤ
unfolding ◌+ℤ◌
wei_add a b = a +ℤ b

unfoldable pub wei_sub : ℤ → ℤ → Result ℤ
wei_sub a b = let out = a -ℤ b in if is_negative out then err insufficient_balance else ok out

-- `a.Cmp(b) >= 0`
unfoldable pub wei_gte : ℤ → ℤ → Bool
wei_gte a b = leb_ℤ b a

parses : parse_wei (codes "1050") ≡ ok (pos 1050)
unfolding parse_wei
parses = refl

refuses_sign : parse_wei (codes "-7") ≡ err invalid_wei
unfolding parse_wei
refuses_sign = refl

prints : wei_string (some (pos 1050)) ≡ codes "1050"
unfolding wei_string
prints = refl
