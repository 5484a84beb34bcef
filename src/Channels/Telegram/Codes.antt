-- ===== src/Channels/Telegram/Codes.antt =====
-- What becomes of the inline codes of a message (pkg/channels/telegram.go).
use picoclawnim.Base.{
  ℕ, zero, suc, ◌+◌, ◌-◌, ◌≡◌, refl, sym, ap, ◌∙◌, Bool, true, false, Option, none, some, List, [],
  ◌∷◌, ◌++◌, append_assoc, append-nil, arith, Str, str, ◌==◌, any, length, ◌<◌, has_prefix, str_eq,
  if◌then◌else◌,
}
use picoclawnim.Base.Replace.{
  rewrite_step, rewrite_from, rewrite_matches, find_step, find_from, find_all, replace_text,
}
use picoclawnim.Channels.Telegram.Patterns.{before, span, match_span, match_block}
use picoclawnim.Channels.Telegram.Markup.{
  placeholder, marked, extract, extract_code_blocks, extract_inline_codes, escape_html, restore,
  format, with_codes, with_blocks, markdown_to_telegram_html,
}

abbrev pub has_tick : Str → Bool
has_tick s = any (λ c. c == b'`') s

-- A piece of code: backticks around a text.
abbrev pub ticked : Str → Str → Str
ticked code rest = b'`' ∷ (code ++ b'`' ∷ rest)

before-tick : (a r : Str) → has_tick a ≡ false → before b'`' (a ++ b'`' ∷ r) ≡ some a
unfolding before
before-tick [] r h = refl
before-tick (c ∷ a) r h = ground (arith, before-tick a r)

match_span-ticked :
    (c : ℕ) (a r : Str)
    → has_tick (c ∷ a) ≡ false
    → match_span b'`' (ticked (c ∷ a) r) ≡ some (suc (suc (length (c ∷ a))), c ∷ a)
unfolding match_span span
match_span-ticked c a r h = rw (before-tick (c ∷ a) r h) (ap (λ n. some (n, c ∷ a)) (omega arith))

rewrite_from-skip :
    (m : Str → Option (ℕ × Str)) (x : ℕ) (xs r : Str)
    → rewrite_from m (suc (length xs)) (xs ++ x ∷ r) ≡ rewrite_from m 0 r
unfolding rewrite_from
rewrite_from-skip m x [] r = refl
rewrite_from-skip m x (y ∷ xs) r = rewrite_from-skip m x xs r

find_from-skip :
    (m : Str → Option (ℕ × Str)) (x : ℕ) (xs r : Str)
    → find_from m (suc (length xs)) (xs ++ x ∷ r) ≡ find_from m 0 r
unfolding find_from
find_from-skip m x [] r = refl
find_from-skip m x (y ∷ xs) r = find_from-skip m x xs r

find_from-ticked :
    (c : ℕ) (a r : Str)
    → has_tick (c ∷ a) ≡ false
    → find_from (match_span b'`') 0 (ticked (c ∷ a) r) ≡ (c ∷ a) ∷ find_from (match_span b'`') 0 r
unfolding find_from find_step
find_from-ticked c a r h =
    rw (match_span-ticked c a r h)
      (ap (◌∷◌ (c ∷ a)) (find_from-skip (match_span b'`') b'`' (c ∷ a) r))

rewrite_from-ticked :
    (p : Str) (c : ℕ) (a r : Str)
    → has_tick (c ∷ a) ≡ false
    → rewrite_from (λ t. marked p (match_span b'`' t)) 0 (ticked (c ∷ a) r)
      ≡ p ++ rewrite_from (λ t. marked p (match_span b'`' t)) 0 r
unfolding rewrite_from rewrite_step marked
rewrite_from-ticked p c a r h =
    rw (match_span-ticked c a r h)
      (ap (◌++◌ p) (rewrite_from-skip (λ t. marked p (match_span b'`' t)) b'`' (c ∷ a) r))

-- A text without three backticks in a row, as far as it is built here, has no block of code.
match_block-plain : (c : ℕ) (s : Str) → (c == b'`') ≡ false → match_block (c ∷ s) ≡ none
unfolding match_block has_prefix
match_block-plain c s h = ground (arith, h)

match_block-tick : (c : ℕ) (s : Str) → (c == b'`') ≡ false → match_block (b'`' ∷ c ∷ s) ≡ none
unfolding match_block has_prefix
match_block-tick c s h = ground (arith, h)

module _ (mark : Str) where
  abbrev blocks : Str → Option (ℕ × Str)
  blocks t = marked mark (match_block t)

  rewrite_from-plain :
      (a r : Str)
      → has_tick a ≡ false
      → rewrite_from blocks 0 (a ++ r) ≡ a ++ rewrite_from blocks 0 r
  unfolding rewrite_from rewrite_step marked
  rewrite_from-plain [] r h = refl
  rewrite_from-plain (c ∷ a) r h =
      rw (match_block-plain c (a ++ r) (ground (arith, h)))
        (ap (◌∷◌ c) (rewrite_from-plain a r (ground (arith, h))))

  rewrite_from-unblocked :
      (c : ℕ) (a r : Str)
      → has_tick (c ∷ a) ≡ false
      → rewrite_from blocks 0 (b'`' ∷ (c ∷ a ++ r)) ≡ b'`' ∷ (c ∷ a ++ rewrite_from blocks 0 r)
  unfolding rewrite_from rewrite_step marked
  rewrite_from-unblocked c a r h =
      rw (match_block-tick c (a ++ r) (ground (arith, h)))
        (ap (◌∷◌ b'`') (rewrite_from-plain (c ∷ a) r h))

find_from-plain :
    (a r : Str) → has_tick a ≡ false → find_from match_block 0 (a ++ r) ≡ find_from match_block 0 r
unfolding find_from find_step
find_from-plain [] r h = refl
find_from-plain (c ∷ a) r h =
    rw (match_block-plain c (a ++ r) (ground (arith, h))) (find_from-plain a r (ground (arith, h)))

find_from-unblocked :
    (c : ℕ) (a r : Str)
    → has_tick (c ∷ a) ≡ false
    → find_from match_block 0 (b'`' ∷ (c ∷ a ++ r)) ≡ find_from match_block 0 r
unfolding find_from find_step
find_from-unblocked c a r h =
    rw (match_block-tick c (a ++ r) (ground (arith, h))) (find_from-plain (c ∷ a) r h)

abbrev pub code_element : Str → Str
code_element s = str "<code>" ++ (escape_html s ++ str "</code>")

-- A message of two pieces of code and a space between them.
abbrev pub two_codes : ℕ → Str → ℕ → Str → Str
two_codes c a d b = ticked (c ∷ a) (b' ' ∷ ticked (d ∷ b) [])

module _ (c : ℕ) (a : Str) (d : ℕ) (b : Str) (ha : has_tick (c ∷ a) ≡ false)
    (hb : has_tick (d ∷ b) ≡ false) where
  blocks_kept : (mark : Str) → rewrite_from (blocks mark) 0 (two_codes c a d b) ≡ two_codes c a d b
  unfolding rewrite_from rewrite_step marked match_block has_prefix
  blocks_kept mark =
      rewrite_from-unblocked mark c a (b'`' ∷ b' ' ∷ ticked (d ∷ b) []) ha
      ∙ ap (λ r. b'`' ∷ (c ∷ a ++ b'`' ∷ b' ' ∷ r)) (rewrite_from-unblocked mark d b (b'`' ∷ []) hb)

  no_blocks : find_from match_block 0 (two_codes c a d b) ≡ []
  unfolding find_from find_step match_block has_prefix
  no_blocks =
      find_from-unblocked c a (b'`' ∷ b' ' ∷ ticked (d ∷ b) []) ha
      ∙ find_from-unblocked d b (b'`' ∷ []) hb

  extract_code_blocks-two : extract_code_blocks (two_codes c a d b) ≡ (two_codes c a d b, [])
  unfolding extract_code_blocks extract rewrite_matches find_all
  extract_code_blocks-two =
      rw no_blocks (ap (λ s. (s, [])) (blocks_kept (placeholder (str "CB") (0 - 1))))

  abbrev mark_one : Str
  mark_one = placeholder (str "IC") 1

  codes_found : find_from (match_span b'`') 0 (two_codes c a d b) ≡ (c ∷ a) ∷ (d ∷ b) ∷ []
  unfolding find_from find_step match_span
  codes_found =
      find_from-ticked c a (b' ' ∷ ticked (d ∷ b) []) ha
      ∙ ap (◌∷◌ (c ∷ a)) (find_from-ticked d b [] hb)

  codes_marked :
      rewrite_from (λ t. marked mark_one (match_span b'`' t)) 0 (two_codes c a d b)
      ≡ mark_one ++ b' ' ∷ (mark_one ++ [])
  unfolding rewrite_from rewrite_step marked match_span
  codes_marked =
      rewrite_from-ticked mark_one c a (b' ' ∷ ticked (d ∷ b) []) ha
      ∙ ap (λ r. mark_one ++ b' ' ∷ r) (rewrite_from-ticked mark_one d b [] hb)

  extract_inline_codes-two :
      extract_inline_codes (two_codes c a d b)
      ≡ (mark_one ++ b' ' ∷ (mark_one ++ []), (c ∷ a) ∷ (d ∷ b) ∷ [])
  unfolding extract_inline_codes extract rewrite_matches find_all
  extract_inline_codes-two = rw codes_found (ap (λ s. (s, (c ∷ a) ∷ (d ∷ b) ∷ [])) codes_marked)

  marks_restored :
      (x y : Str)
      → replace_text
          (placeholder (str "IC") 1)
          y
          (replace_text (placeholder (str "IC") 0) x (format (mark_one ++ b' ' ∷ (mark_one ++ []))))
        ≡ y ++ b' ' ∷ (y ++ [])
  unfolding replace_text format placeholder rewrite_matches rewrite_from
      picoclawnim.Channels.Telegram.Patterns.strip_bullet picoclawnim.Base.Strings.replace_byte
      picoclawnim.Channels.Telegram.Patterns.strip_quote
      picoclawnim.Channels.Telegram.Patterns.strip_heading
      picoclawnim.Channels.Telegram.Patterns.match_link
      picoclawnim.Channels.Telegram.Patterns.match_pair has_prefix
      picoclawnim.Channels.Telegram.Patterns.match_italic picoclawnim.Base.Decimal.decimal
  marks_restored x y = refl

  -- Of a message that consists of two pieces of inline code with a blank between them the first is
  -- lost and the second is shown twice, for every two pieces that are not empty and have no backtick:
  -- the placeholders of both have one number.
  pub markdown_to_telegram_html_two :
      markdown_to_telegram_html (two_codes c a d b)
      ≡ code_element (d ∷ b) ++ b' ' ∷ (code_element (d ∷ b) ++ [])
  unfolding markdown_to_telegram_html with_blocks with_codes restore str_eq
  markdown_to_telegram_html_two =
      ap with_blocks extract_code_blocks-two
      ∙ ap with_codes extract_inline_codes-two
      ∙ marks_restored (code_element (c ∷ a)) (code_element (d ∷ b))
