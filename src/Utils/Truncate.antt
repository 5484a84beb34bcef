-- ===== src/Utils/Truncate.antt =====
-- `Truncate` of pkg/utils/string.go. Its callers pass constants, so the bound is a natural number.
use picoclawnim.Base.{
  ℕ, ◌-◌, ◌≤◌, ◌≡◌, ◌∙◌, sym, ap, List, ◌++◌, All-append, All-take, Str, str, arith, if◌then◌else◌,
  leb, length, take, length-take, length-append,
}
use picoclawnim.Utils.Runes.{
  IsScalar, runes, of_runes, runes-IsScalar, runes-of_runes, of_runes-append, encode_rune,
}

abbrev dots : Str
dots = str "..."

unfoldable pub truncate : Str → ℕ → Str
truncate s max_len =
    let rs = runes s in
    if leb (length rs) max_len
    then s
    else if leb max_len 3
    then of_runes (take max_len rs)
    else of_runes (take (max_len - 3) rs) ++ dots

-- The runes of the result: those of the text if there are few enough, else a prefix of them, with
-- three dots after it if the bound leaves room for more than the dots.
pub truncated_runes : ℕ → List ℕ → List ℕ
truncated_runes n rs =
    if leb (length rs) n then rs else if leb n 3 then take n rs else take (n - 3) rs ++ dots

prefix_runes : (s : Str) (n : ℕ) → runes (of_runes (take n (runes s))) ≡ take n (runes s)
prefix_runes s n =
    runes-of_runes (take n (runes s)) (All-take IsScalar n (runes s) (runes-IsScalar s))

dotted_runes :
    (s : Str) (n : ℕ) → runes (of_runes (take n (runes s)) ++ dots) ≡ take n (runes s) ++ dots
unfolding of_runes encode_rune
dotted_runes s n =
    ap runes (sym (of_runes-append (take n (runes s)) dots))
    ∙ runes-of_runes (take n (runes s) ++ dots) (
        All-append IsScalar (take n (runes s)) dots
          (All-take IsScalar n (runes s) (runes-IsScalar s)) (ground arith))

-- The runes of the result are the specified ones, whatever the bytes of the text.
pub runes-truncate : (s : Str) (n : ℕ) → runes (truncate s n) ≡ truncated_runes n (runes s)
unfolding truncate truncated_runes
runes-truncate s n =
    ground (arith, prefix_runes s n, prefix_runes s (n - 3), dotted_runes s (n - 3))

-- The result has at most as many runes as the bound allows, whatever the bytes of the text.
pub length-truncate : (s : Str) (n : ℕ) → length (runes (truncate s n)) ≤ n
unfolding truncated_runes
length-truncate s n = rw (runes-truncate s n) (
    ground (
      arith,
      length-take n (runes s),
      length-take (n - 3) (runes s),
      length-append (take (n - 3) (runes s)) dots,
    ))
