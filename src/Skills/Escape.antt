-- ===== src/Skills/Escape.antt =====
-- `escapeXML` of pkg/skills/loader.go.
use picoclawnim.Base.{
  ℕ, zero, suc, ◌≡◌, refl, sym, ap, has_prefix, ◌∙◌, false, ◌||◌, [], ◌∷◌, ◌++◌, arith, Str, str,
  ◌==◌, if◌then◌else◌, any,
}
use picoclawnim.Base.Strings.{replace_byte}
use picoclawnim.Skills.Text.{escape_xml}

-- The reference: one pass, byte by byte.
unfoldable pub escape_byte : ℕ → Str
escape_byte c =
    if c == b'&'
    then str "&amp;"
    else if c == b'<'
    then str "&lt;"
    else if c == b'>'
    then str "&gt;"
    else c ∷ []

unfoldable pub escape_bytes : Str → Str
unfolding escape_byte
escape_bytes [] = []
escape_bytes (c ∷ s) = escape_byte c ++ escape_bytes s

-- The three replacements, one after the other, are the same as one pass that replaces each byte.
pub escape_xml-escape_bytes : (s : Str) → escape_xml s ≡ escape_bytes s
unfolding escape_xml escape_bytes escape_byte replace_byte
escape_xml-escape_bytes [] = refl
escape_xml-escape_bytes (c ∷ s) = ground (arith, escape_xml-escape_bytes s)

-- The inverse: `skip` bytes belong to the entity that was read last.
unescape : ℕ → Str → Str
unescape skip [] = []
unescape (suc n) (c ∷ s) = unescape n s
unescape zero (c ∷ s) =
    let amp = unescape 4 s in
    let angle = unescape 3 s in
    let rest = unescape 0 s in
    if has_prefix (c ∷ s) (str "&amp;")
    then b'&' ∷ amp
    else if has_prefix (c ∷ s) (str "&lt;")
    then b'<' ∷ angle
    else if has_prefix (c ∷ s) (str "&gt;")
    then b'>' ∷ angle
    else c ∷ rest

unescape-escape_bytes : (s : Str) → unescape 0 (escape_bytes s) ≡ s
unfolding unescape escape_bytes escape_byte has_prefix
unescape-escape_bytes [] = refl
unescape-escape_bytes (c ∷ s) = ground (arith, unescape-escape_bytes s)

escape_bytes-angles : (s : Str) → any (λ c. c == b'<' || c == b'>') (escape_bytes s) ≡ false
unfolding escape_bytes escape_byte
escape_bytes-angles [] = refl
escape_bytes-angles (c ∷ s) = ground (arith, escape_bytes-angles s)

-- An escaped text has no angle bracket, so it opens and closes no element.
pub escape_xml_angles : (s : Str) → any (λ c. c == b'<' || c == b'>') (escape_xml s) ≡ false
escape_xml_angles s = rw (escape_xml-escape_bytes s) (escape_bytes-angles s)

-- Two texts that are escaped to the same are the same.
pub escape_xml_injective : (s t : Str) → escape_xml s ≡ escape_xml t → s ≡ t
escape_xml_injective s t e =
    sym (unescape-escape_bytes s)
    ∙ ap (unescape 0) (sym (escape_xml-escape_bytes s) ∙ e ∙ escape_xml-escape_bytes t)
    ∙ unescape-escape_bytes t
