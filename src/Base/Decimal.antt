-- ===== src/Base/Decimal.antt =====
-- Decimal numerals, as `%d` of fmt.Sprintf writes them.
use picoclawnim.Base.{
  ℕ, zero, suc, ◌+◌, ◌-◌, ◌*◌, ◌/◌, ◌%◌, ◌≤◌, ◌≡◌, refl, sym, ap, ◌∙◌, Bool-cases, inl, inr, true,
  false, [], ◌∷◌, ◌++◌, Str, arith, ltb,
}
use picoclawnim.Base.Int.{ℤ, pos, negsuc}

-- The digits of `n`, on fuel, of which `n` itself is enough.
unfoldable pub digits_from : ℕ → ℕ → Str
digits_from zero n = (b'0' + n) ∷ []
digits_from (suc fuel) n = elim (ltb n 10) [
  | true ↦ (b'0' + n) ∷ []
  | false ↦ digits_from fuel (n / 10) ++ (b'0' + n % 10) ∷ []
]

unfoldable pub decimal : ℕ → Str
unfolding digits_from
decimal n = digits_from n n

-- `fmt.Sprintf("%d", z)`
unfoldable pub decimal_ℤ : ℤ → Str
unfolding decimal
decimal_ℤ (pos n) = decimal n
decimal_ℤ (negsuc n) = b'-' ∷ decimal (suc n)

-- The number that digits stand for, after the digits of `acc`.
value : ℕ → Str → ℕ
value acc [] = acc
value acc (c ∷ s) = value (acc * 10 + (c - 48)) s

value-append : (acc : ℕ) (s : Str) (c : ℕ) → value acc (s ++ c ∷ []) ≡ value acc s * 10 + (c - 48)
unfolding value
value-append acc [] c = refl
value-append acc (d ∷ s) c = value-append (acc * 10 + (d - 48)) s c

value-digits_from : (fuel n : ℕ) → n ≤ fuel → value 0 (digits_from fuel n) ≡ n
unfolding value digits_from
value-digits_from zero n h = omega arith
value-digits_from (suc fuel) n h = elim (Bool-cases (ltb n 10)) [
  | inl e ↦ rw (digits_from, e) (ground arith)
  | inr e ↦
      rw (digits_from, e)
        (value-append 0 (digits_from fuel (n / 10)) (48 + n % 10)
          ∙ ground (arith, value-digits_from fuel (n / 10)))
]

-- Two numbers with the same numeral are the same.
pub decimal_injective : (m n : ℕ) → decimal m ≡ decimal n → m ≡ n
unfolding decimal
decimal_injective m n e =
    sym (value-digits_from m m (omega arith)) ∙ ap (value 0) e ∙ value-digits_from n n (omega arith)
