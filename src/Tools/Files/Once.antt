-- ===== src/Tools/Files/Once.antt =====
-- What it means for a text to occur once: contains, count_from and replace_first agree.
use picoclawnim.Base.{
  ℕ, zero, suc, ◌≡◌, ◌≤◌, refl, sym, ap, ◌∙◌, arith, true, false, [], ◌∷◌, ◌++◌, Str, has_prefix,
  contains, length, drop, has_prefix_split, length-append, ◌+◌, Bool-cases, inl, inr, drop-append,
}
use picoclawnim.Tools.Files.Edit.{count_from, replace_first}

-- No occurrence counted, none there. The fuel is at least the length of the text.
count_from-zero :
    (n o : ℕ) (s old : Str)
    → length s ≤ n
    → count_from n s (o ∷ old) ≡ 0
    → contains s (o ∷ old) ≡ false
unfolding count_from contains has_prefix
count_from-zero zero o [] old l h = refl
count_from-zero zero o (c ∷ s) old l h = ground arith
count_from-zero (suc n) o [] old l h = refl
count_from-zero (suc n) o (c ∷ s) old l h = ground (arith, count_from-zero n o s old)

tail-length : (s old q : Str) (o : ℕ) → s ≡ (o ∷ old) ++ q → length q + 1 ≤ length s
tail-length s old q o e = omega (arith, ap length e, length-append (o ∷ old) q)

replace_first_here :
    (c : ℕ) (s old new : Str)
    → has_prefix (c ∷ s) old ≡ true
    → replace_first (c ∷ s) old new ≡ new ++ drop (length old) (c ∷ s)
unfolding replace_first
replace_first_here c s old new h = rw h refl

replace_first_later :
    (c : ℕ) (s old new : Str)
    → has_prefix (c ∷ s) old ≡ false
    → replace_first (c ∷ s) old new ≡ c ∷ replace_first s old new
unfolding replace_first
replace_first_later c s old new h = rw h refl

count_here :
    (n c : ℕ) (s old : Str)
    → has_prefix (c ∷ s) old ≡ true
    → count_from (suc n) (c ∷ s) old ≡ suc (count_from n (drop (length old) (c ∷ s)) old)
unfolding count_from
count_here n c s old h = rw h refl

count_later :
    (n c : ℕ) (s old : Str)
    → has_prefix (c ∷ s) old ≡ false
    → count_from (suc n) (c ∷ s) old ≡ count_from n s old
unfolding count_from
count_later n c s old h = rw h refl

none_left :
    (n c : ℕ) (s old : Str)
    → has_prefix (c ∷ s) old ≡ true
    → count_from (suc n) (c ∷ s) old ≤ 1
    → count_from n (drop (length old) (c ∷ s)) old ≡ 0
none_left n c s old h m = omega (arith, m, count_here n c s old h)

contains_later :
    (c : ℕ) (s old : Str) → has_prefix (c ∷ s) old ≡ false → contains (c ∷ s) old ≡ contains s old
unfolding contains
contains_later c s old h = rw h refl

-- A text with one counted occurrence is what stands before it, the occurrence, and a rest that
-- has none, and the replacement is there.
pub replace_first-splits :
    (n o : ℕ) (s old new : Str)
    → length s ≤ n
    → contains s (o ∷ old) ≡ true
    → count_from n s (o ∷ old) ≤ 1
    → (p : Str) × (q : Str) × (s ≡ p ++ ((o ∷ old) ++ q))
      × (replace_first s (o ∷ old) new ≡ p ++ (new ++ q))
      × (contains q (o ∷ old) ≡ false)
unfolding contains has_prefix
replace_first-splits n o [] old new l h m = cc
replace_first-splits zero o (c ∷ s) old new l h m = ground arith
replace_first-splits (suc n) o (c ∷ s) old new l h m =
    elim (Bool-cases (has_prefix (c ∷ s) (o ∷ old))) [
      | inl e ↦
          let (q, f) = has_prefix_split (c ∷ s) (o ∷ old) e in
          let d : drop (length (o ∷ old)) (c ∷ s) ≡ q =
            ap (drop (length (o ∷ old))) f ∙ drop-append (o ∷ old) q in
          let k : count_from n q (o ∷ old) ≡ 0 =
            ap (λ t. count_from n t (o ∷ old)) (sym d) ∙ none_left n c s (o ∷ old) e m in
          (
            [],
            q,
            f,
            replace_first_here c s (o ∷ old) new e ∙ ap (λ t. new ++ t) d,
            count_from-zero n o q old (omega (arith, tail-length (c ∷ s) old q o f, l)) k,
          )
      | inr e ↦
          let (p, q, f, g, z) =
            replace_first-splits n o s old new (omega (arith, l))
              (sym (contains_later c s (o ∷ old) e) ∙ h)
              (omega (arith, m, count_later n c s (o ∷ old) e)) in
          (c ∷ p, q, ap (◌∷◌ c) f, replace_first_later c s (o ∷ old) new e ∙ ap (◌∷◌ c) g, z)
    ]
