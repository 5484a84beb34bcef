-- ===== src/Channels/Telegram/Markup.antt =====
-- `markdownToTelegramHTML`, `extractCodeBlocks`, `extractInlineCodes` and `escapeHTML` of
-- pkg/channels/telegram.go.
use picoclawnim.Base.{
  ℕ, suc, ◌-◌, Option, none, some, List, [], ◌∷◌, ◌++◌, Str, str, str_eq, if◌then◌else◌, length,
}
use picoclawnim.Base.Decimal.{decimal}
use picoclawnim.Base.Strings.{replace_byte}
use picoclawnim.Base.Replace.{rewrite_matches, find_all, replace_text}
use picoclawnim.Channels.Telegram.Patterns.{
  match_block, match_span, match_pair, match_italic, match_link, strip_heading, strip_quote,
  strip_bullet,
}

-- `\x00` and the kind of the code, its number, and `\x00`.
unfoldable pub placeholder : Str → ℕ → Str
placeholder kind i = 0 ∷ kind ++ (decimal i ++ 0 ∷ [])

unfoldable pub marked : Str → Option (ℕ × Str) → Option (ℕ × Str)
marked mark none = none
marked mark (some (n, code)) = some (n, mark)

-- The codes of a text, and the text with a placeholder for each: the closure of the source reads
-- `len(codes)-1` after all codes were found, so it writes one number for all.
unfoldable pub extract : Str → (Str → Option (ℕ × Str)) → Str → Str × List Str
unfolding marked placeholder
extract kind m s =
    let codes = find_all m s in
    (rewrite_matches (λ t. marked (placeholder kind (length codes - 1)) (m t)) s, codes)

unfoldable pub extract_code_blocks : Str → Str × List Str
unfolding extract
extract_code_blocks s = extract (str "CB") match_block s

unfoldable pub extract_inline_codes : Str → Str × List Str
unfolding extract
extract_inline_codes s = extract (str "IC") (match_span b'`') s

unfoldable pub escape_html : Str → Str
escape_html s =
    replace_byte b'>' (str "&gt;")
      (replace_byte b'<' (str "&lt;") (replace_byte b'&' (str "&amp;") s))

-- The loop that puts the codes back, from the i-th on.
unfoldable pub restore : Str → Str → Str → ℕ → List Str → Str → Str
unfolding placeholder escape_html
restore kind open_tag close_tag i [] s = s
restore kind open_tag close_tag i (c ∷ cs) s =
    restore kind open_tag close_tag (suc i) cs
      (replace_text (placeholder kind i) (open_tag ++ (escape_html c ++ close_tag)) s)

-- What is done to the text between the extraction of the codes and their return.
unfoldable pub format : Str → Str
unfolding escape_html
format s =
    let a = escape_html (strip_quote (strip_heading s)) in
    let b =
      rewrite_matches (match_pair (str "**") (str "<b>") (str "</b>"))
        (rewrite_matches match_link a) in
    let c =
      rewrite_matches match_italic
        (rewrite_matches (match_pair (str "__") (str "<b>") (str "</b>")) b) in
    strip_bullet (rewrite_matches (match_pair (str "~~") (str "<s>") (str "</s>")) c)

unfoldable pub with_codes : Str × List Str → Str
unfolding restore format
with_codes (s, codes) = restore (str "IC") (str "<code>") (str "</code>") 0 codes (format s)

unfoldable pub with_blocks : Str × List Str → Str
unfolding with_codes restore extract_inline_codes
with_blocks (s, codes) =
    restore (str "CB") (str "<pre><code>") (str "</code></pre>") 0 codes
      (with_codes (extract_inline_codes s))

unfoldable pub markdown_to_telegram_html : Str → Str
unfolding extract_code_blocks with_blocks
markdown_to_telegram_html s = if str_eq s [] then [] else with_blocks (extract_code_blocks s)
