-- ===== src/Channels/Telegram/Tests.antt =====
-- The conversion of messages for Telegram (pkg/channels/telegram.go) on concrete texts.
use picoclawnim.Base.{◌≡◌, refl, false, [], ◌∷◌, ◌++◌, str}
use picoclawnim.Channels.Telegram.Markup.{markdown_to_telegram_html}
use picoclawnim.Channels.Telegram.Codes.{
  has_tick, two_codes, code_element, markdown_to_telegram_html_two,
}

bold_shown :
    markdown_to_telegram_html (str "a **b** < [c](d)") ≡ str "a <b>b</b> &lt; <a href=\"d\">c</a>"
unfolding markdown_to_telegram_html picoclawnim.Base.str_eq picoclawnim.Base.Replace.find_all
    picoclawnim.Base.Replace.find_from picoclawnim.Channels.Telegram.Patterns.match_block
    picoclawnim.Base.has_prefix picoclawnim.Base.Replace.rewrite_matches
    picoclawnim.Base.Replace.rewrite_from picoclawnim.Channels.Telegram.Patterns.match_span
    picoclawnim.Channels.Telegram.Patterns.strip_bullet picoclawnim.Base.Strings.replace_byte
    picoclawnim.Channels.Telegram.Patterns.strip_quote
    picoclawnim.Channels.Telegram.Patterns.strip_heading
    picoclawnim.Channels.Telegram.Patterns.match_link
    picoclawnim.Channels.Telegram.Patterns.match_pair
    picoclawnim.Channels.Telegram.Patterns.match_italic
bold_shown = refl

plain_first : has_tick (str "ls") ≡ false
plain_first = refl

plain_second : has_tick (str "rm") ≡ false
plain_second = refl

markdown_to_telegram_html_two_example :
    markdown_to_telegram_html (two_codes b'l' (str "s") b'r' (str "m"))
    ≡ code_element (str "rm") ++ b' ' ∷ (code_element (str "rm") ++ [])
markdown_to_telegram_html_two_example =
    markdown_to_telegram_html_two b'l' (str "s") b'r' (str "m") plain_first plain_second
