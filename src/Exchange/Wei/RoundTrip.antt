-- ===== src/Exchange/Wei/RoundTrip.antt =====
-- Printing an amount and parsing it again.
use gin_demo.Prelude.{
  ℕ, zero, suc, ◌+◌, ◌-◌, ◌*◌, ◌/◌, ◌%◌, ◌≤◌, ◌<◌, ◌≡◌, refl, Option, none, some, arith, Bool-cases,
  inl, inr, ◌==◌, ◌∷◌, [], ◌∙◌, ap,
}
use gin_demo.Prelude.Int.{ℤ, pos, negsuc}
use gin_demo.Prelude.Text.{Text}
use gin_demo.Sql.{ok}
use gin_demo.Exchange.Wei.{
  digits, decimal, scan, set_string, parse_wei, wei_string, positive, checked_sign,
}

scan_digit : (n d : ℕ) (s : Text) → d < 10 → scan n ((b'0' + d) ∷ s) ≡ scan (n * 10 + d) s
unfolding scan
scan_digit n d s h = let e : b'0' + d - b'0' ≡ d = omega arith in rw e (ground arith)

scan-digits : (rounds n : ℕ) (out : Text) → n ≤ rounds → scan 0 (digits rounds n out) ≡ scan n out
unfolding digits
scan-digits zero n out h = let e : n ≡ 0 = omega arith in rw e
scan-digits (suc rounds) n out h = elim (Bool-cases (n == 0)) [
  | inl done ↦ let e : n ≡ 0 = ground arith in rw e
  | inr more ↦
      rw (more, digits)
        (scan-digits rounds (n / 10) ((b'0' + n % 10) ∷ out) (ground arith)
          ∙ scan_digit (n / 10) (n % 10) out (omega arith)
          ∙ ap (λ k. scan k out) (omega arith))
]

digits-zero : (rounds : ℕ) (out : Text) → digits rounds 0 out ≡ out
unfolding digits
digits-zero zero out = refl
digits-zero (suc rounds) out = refl

-- Nothing that `digits` prints begins with a sign.
digits-head :
    (rounds n : ℕ) (out : Text)
    → 0 < n
    → n ≤ rounds
    → (d : ℕ) × (rest : Text) × (digits rounds n out ≡ (b'0' + d) ∷ rest)
unfolding digits
digits-head zero n out p h = absurd (omega arith)
digits-head (suc rounds) n out p h = elim (Bool-cases (n == 0)) [
  | inl none_left ↦ absurd (ground arith)
  | inr more ↦
      rw (more, digits)
        (elim (Bool-cases (n / 10 == 0)) [
          | inl last ↦
              (n % 10, out, let e : n / 10 ≡ 0 = ground arith in rw e (digits-zero rounds _))
          | inr further ↦
              digits-head rounds (n / 10) ((b'0' + n % 10) ∷ out) (ground arith) (omega arith)
        ])
]

decimal-head : (n : ℕ) → (d : ℕ) × (rest : Text) × (decimal n ≡ (b'0' + d) ∷ rest)
unfolding decimal
decimal-head zero = (0, [], refl)
decimal-head (suc n) =
    let (d, rest, e) = digits-head (suc n) (suc n) [] (omega arith) (omega arith) in
    (d, rest, ground arith)

scan-decimal : (n : ℕ) → scan 0 (decimal n) ≡ some n
unfolding decimal scan
scan-decimal zero = refl
scan-decimal (suc n) = ground (arith, scan-digits (suc n) (suc n) [])

set_string_digit :
    (d : ℕ) (s : Text) → set_string ((b'0' + d) ∷ s) ≡ positive (scan 0 ((b'0' + d) ∷ s))
unfolding set_string
set_string_digit d s = ground arith

-- Printing an amount that is not negative and parsing the text gives the amount back.
pub parse_wei-wei_string : (n : ℕ) → parse_wei (wei_string (some (pos n))) ≡ ok (pos n)
unfolding wei_string
parse_wei-wei_string n =
    let (d, rest, e) = decimal-head n in
    let read : scan 0 ((b'0' + d) ∷ rest) ≡ some n = rw e at (scan-decimal n) in
    rw e (unfold parse_wei in rw (set_string_digit d rest, read) refl)

checked_sign-pos : (o : Option ℤ) (v : ℤ) → checked_sign o ≡ ok v → (n : ℕ) × (v ≡ pos n)
checked_sign-pos none v h = cc
checked_sign-pos (some (pos n)) v h = (n, cc)
checked_sign-pos (some (negsuc n)) v h = cc

-- An amount that `parse_wei` accepts is not negative.
pub parse_wei-pos : (s : Text) (v : ℤ) → parse_wei s ≡ ok v → (n : ℕ) × (v ≡ pos n)
unfolding parse_wei
parse_wei-pos s v h = checked_sign-pos (set_string s) v h
