-- ===== src/Skills/Front.antt =====
-- What `stripFrontmatter` of pkg/skills/loader.go takes away, told by its regular expression.
use picoclawnim.Base.{
  ◌≡◌, ◌≢◌, ◌↔◌, ◌⊎◌, refl, sym, ap, ◌∙◌, Bool, false, Bool-cases, inl, inr, none, some, [], ◌∷◌,
  ◌++◌, append_assoc, arith, ℕ, Str, str, ◌==◌, any, has_prefix, has_prefix_split,
}
use picoclawnim.Base.Strings.{cut}
use picoclawnim.Skills.Text.{dashes, after_line, keep_or, strip_frontmatter}

-- The regular expressions that the pattern is made of. The dot stands for a byte that is no line
-- break, so that its star stands for the texts of one line.
pub data Regex : Type 0 where
  nothing dot : Regex
  byte : ℕ → Regex
  seq : Regex → Regex → Regex
  star : Regex → Regex

pub data Matches : Regex → Str → Type 0 where
  empty : Matches nothing []
  the_byte : {c : ℕ} → Matches (byte c) (c ∷ [])
  other_byte : {c : ℕ} → (c == b'\n') ≡ false → Matches dot (c ∷ [])
  both : {a b : Regex} {s t : Str} → Matches a s → Matches b t → Matches (seq a b) (s ++ t)
  stop : {a : Regex} → Matches (star a) []
  again : {a : Regex} {s t : Str} → Matches a s → Matches (star a) t → Matches (star a) (s ++ t)

abbrev literal : Str → Regex
literal [] = nothing
literal (c ∷ s) = seq (byte c) (literal s)

-- `---\n.*?\n---\n`
abbrev pub front_matter : Regex
front_matter = seq (literal (str "---\n")) (seq (star dot) (literal (str "\n---\n")))

abbrev has_break : Str → Bool
has_break s = any (λ c. c == b'\n') s

literal_sound : (w s : Str) → Matches (literal w) s → s ≡ w
literal_sound [] s empty = refl
literal_sound (c ∷ w) s (both the_byte m) = ap (◌∷◌ c) (literal_sound w _ m)

literal-Matches : (w : Str) → Matches (literal w) w
literal-Matches [] = empty
literal-Matches (c ∷ w) = both the_byte (literal-Matches w)

line_sound : (s : Str) → Matches (star dot) s → has_break s ≡ false
line_sound s stop = refl
line_sound s (again (other_byte h) m) = ground (arith, h, line_sound _ m)

line-Matches : (s : Str) → has_break s ≡ false → Matches (star dot) s
line-Matches [] h = stop
line-Matches (c ∷ s) h = again (other_byte (ground arith)) (line-Matches s (ground arith))

cut-line :
    (line rest : Str)
    → has_break line ≡ false
    → cut b'\n' (line ++ b'\n' ∷ rest) ≡ (line, some rest)
unfolding cut
cut-line [] rest h = refl
cut-line (c ∷ line) rest h = ground (arith, cut-line line rest)

cut_cases :
    (s : Str)
    → ((cut b'\n' s).1 ≡ none)
      ⊎ ((line : Str) × (rest : Str) × ((cut b'\n' s).1 ≡ some rest)
          × (has_break line ≡ false)
          × (s ≡ line ++ b'\n' ∷ rest))
unfolding cut
cut_cases [] = inl refl
cut_cases (c ∷ s) = elim (Bool-cases (c == b'\n')) [
  | inl e ↦ inr ([], s, rw e refl, refl, ap (λ x. x ∷ s) (ground (arith, e)))
  | inr e ↦ elim (cut_cases s) [
    | inl f ↦ inl (rw (e, f) refl)
    | inr (line, rest, f, h, g) ↦
        inr (c ∷ line, rest, rw (e, f) refl, ground (arith, e, h), ap (◌∷◌ c) g)
  ]
]

-- What is matched is a line between dashes.
front_matter_sound :
    (p : Str)
    → Matches front_matter p
    → (line : Str) × (has_break line ≡ false) × (p ≡ dashes ++ (line ++ str "\n---\n"))
front_matter_sound p (both {s = a} d (both {s = line} {t = e} l c)) = (
  line,
  line_sound line l,
  ap (λ x. x ++ (line ++ e)) (literal_sound (str "---\n") a d)
      ∙ ap (λ x. dashes ++ (line ++ x)) (literal_sound (str "\n---\n") e c),
)

strip_matched :
    (line t : Str)
    → has_break line ≡ false
    → strip_frontmatter (dashes ++ (line ++ b'\n' ∷ (dashes ++ t))) ≡ t
unfolding strip_frontmatter after_line keep_or has_prefix
strip_matched line t h = rw (cut-line line (dashes ++ t) h) refl

strip_rest :
    (x : Str)
    → strip_frontmatter (dashes ++ x) ≢ dashes ++ x
    → (p : Str) × Matches front_matter p × (dashes ++ x ≡ p ++ strip_frontmatter (dashes ++ x))
unfolding strip_frontmatter after_line keep_or has_prefix
strip_rest x ne = elim (cut_cases x) [
  | inl e ↦ elim (ne (rw e refl)) [ ]
  | inr (line, rest, e, h, g) ↦ elim (Bool-cases (has_prefix rest dashes)) [
    | inl f ↦
        let (t, z) = has_prefix_split rest dashes f in
        let lines = g ∙ ap (λ r. line ++ b'\n' ∷ r) z in
        let stripped = ap (λ y. strip_frontmatter (dashes ++ y)) lines ∙ strip_matched line t h in
        (
          dashes ++ (line ++ str "\n---\n"),
          both (literal-Matches (str "---\n"))
              (both (line-Matches line h) (literal-Matches (str "\n---\n"))),
          ap (λ y. dashes ++ y) (lines ∙ sym (append_assoc line (str "\n---\n") t))
              ∙ ap (λ y. (dashes ++ (line ++ str "\n---\n")) ++ y) (sym stripped),
        )
    | inr f ↦ elim (ne (rw (e, f) refl)) [ ]
  ]
]

strip_part :
    (s : Str)
    → strip_frontmatter s ≢ s
    → (p : Str) × Matches front_matter p × (s ≡ p ++ strip_frontmatter s)
unfolding strip_frontmatter
strip_part s ne = elim (Bool-cases (has_prefix s dashes)) [
  | inl e ↦
      let (x, z) = has_prefix_split s dashes e in
      let (p, m, q) = strip_rest x (λ k. ne (ap strip_frontmatter z ∙ k ∙ sym z)) in
      (p, m, z ∙ q ∙ ap (λ y. p ++ y) (ap strip_frontmatter (sym z)))
  | inr e ↦ elim (ne (rw e refl)) [ ]
]

strip_whole : (s t p : Str) → Matches front_matter p → s ≡ p ++ t → strip_frontmatter s ≡ t
strip_whole s t p m e =
    let (line, h, q) = front_matter_sound p m in
    ap strip_frontmatter
      (e ∙ ap (λ y. y ++ t) q ∙ ap (λ y. dashes ++ y) (append_assoc line (str "\n---\n") t))
    ∙ strip_matched line t h

-- A text becomes another one by `stripFrontmatter` exactly if it is a match of the pattern with the
-- other behind it. In the pattern, as the source has it, the dot is no line break, so that the front
-- matter is one line.
pub strip_frontmatter_iff :
    (s t : Str)
    → s ≢ t
    → (strip_frontmatter s ≡ t) ↔ ((p : Str) × Matches front_matter p × (s ≡ p ++ t))
strip_frontmatter_iff s t ne = (
  λ e. let (p, m, q) = strip_part s (λ k. ne (sym k ∙ e)) in (p, m, q ∙ ap (λ y. p ++ y) e),
  λ (p, m, q). strip_whole s t p m q,
)
