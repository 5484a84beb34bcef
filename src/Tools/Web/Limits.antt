-- ===== src/Tools/Web/Limits.antt =====
-- What the web tools fetch and show (pkg/tools/web.go).
use picoclawnim.Base.{
  ℕ, zero, suc, ◌≤◌, ◌≡◌, ◌≢◌, refl, Bool, true, false, not, ◌||◌, Bool-cases, inl, inr, Option,
  none, some, [], ◌∷◌, arith, Str, str, str_eq, if◌then◌else◌, any, length, ◌==◌, take,
}
use picoclawnim.Base.Int.{ℤ}
use picoclawnim.Base.Strings.{
  trim_space, trim, trim_left, trim_right, trimmed_end, is_space, split, split_from, join_with,
}
use picoclawnim.Base.Replace.{
  replace_matches, replace_from, replace_step, match_spaces, spaces, is_re_space,
}
use picoclawnim.Json.{Float64, truncated, Fields, get_string, get_float}
use picoclawnim.Tools.Web.Text.{collapsed, clean_lines, extract_text}
use picoclawnim.Tools.Web.Search.{in_range, new_web_search_tool, count_of}
use picoclawnim.Tools.Web.Fetch.{
  WebFetchTool, Url, Parsed, parsed, Answer, got, Page, chars_of, body_text,
}

in_range_bounds : (d : ℕ) (n : ℤ) → 1 ≤ d → d ≤ 10 → (1 ≤ in_range d n) × (in_range d n ≤ 10)
unfolding in_range
in_range_bounds d n lo hi = ground arith

count_of_bounds :
    (d : ℕ) (o : Option Float64) → 1 ≤ d → d ≤ 10 → (1 ≤ count_of d o) × (count_of d o ≤ 10)
unfolding count_of
count_of_bounds d none lo hi = (lo, hi)
count_of_bounds d (some f) lo hi = in_range_bounds d (truncated f) lo hi

-- A search asks for at least one result and for at most ten, whatever the configuration and the
-- model's arguments say.
pub new_web_search_tool-count_of :
    (key : Str) (n : ℤ) (o : Option Float64)
    → (1 ≤ count_of (new_web_search_tool key n).max_results o)
      × (count_of (new_web_search_tool key n).max_results o ≤ 10)
unfolding new_web_search_tool
new_web_search_tool-count_of key n o =
    let (lo, hi) = in_range_bounds 5 n (omega arith) (omega arith) in count_of_bounds _ o lo hi

abbrev pub has_break : Str → Bool
has_break s = any (λ c. c == b'\n') s

spaces-step :
    (c : ℕ) (s : Str)
    → match_spaces (c ∷ s) ≡ (if is_re_space c then some (suc (spaces s)) else none)
unfolding match_spaces spaces
spaces-step c s = ground arith

replace_spaces :
    (c : ℕ) (s : Str) (rest : ℕ → Str)
    → replace_step (match_spaces (c ∷ s)) c (str " ") rest
      ≡ (if is_re_space c then b' ' ∷ rest (spaces s) else c ∷ rest 0)
unfolding replace_step
replace_spaces c s rest = elim (Bool-cases (is_re_space c)) [
  | inl e ↦ rw (spaces-step c s, e) refl
  | inr e ↦ rw (spaces-step c s, e) refl
]

break_is_space : (c : ℕ) → is_re_space c ≡ false → (c == b'\n') ≡ false
unfolding is_re_space
break_is_space c h = ground (arith, h)

has_break-replace_from :
    (n : ℕ) (s : Str) → has_break (replace_from match_spaces (str " ") n s) ≡ false
unfolding replace_from
has_break-replace_from n [] = refl
has_break-replace_from (suc n) (c ∷ s) = has_break-replace_from n s
has_break-replace_from zero (c ∷ s) =
    rw (replace_spaces c s (λ n. replace_from match_spaces (str " ") n s)) (
      ground
        (arith, break_is_space c, has_break-replace_from (spaces s) s, has_break-replace_from 0 s))

has_break-collapsed : (html : Str) → has_break (collapsed html) ≡ false
unfolding collapsed replace_matches
has_break-collapsed html = has_break-replace_from 0 _

has_break-trim_left :
    (p : ℕ → Bool) (s : Str) → has_break s ≡ false → has_break (trim_left p s) ≡ false
unfolding trim_left
has_break-trim_left p [] h = h
has_break-trim_left p (c ∷ s) h = ground (arith, has_break-trim_left p s)

has_break-trimmed_end :
    (p : ℕ → Bool) (c : ℕ) (r : Str)
    → has_break (c ∷ r) ≡ false
    → has_break (trimmed_end p c r) ≡ false
unfolding trimmed_end
has_break-trimmed_end p c [] h = ground (arith, h)
has_break-trimmed_end p c (d ∷ r) h = h

has_break-trim_right :
    (p : ℕ → Bool) (s : Str) → has_break s ≡ false → has_break (trim_right p s) ≡ false
unfolding trim_right
has_break-trim_right p [] h = h
has_break-trim_right p (c ∷ s) h =
    has_break-trimmed_end p c (trim_right p s)
      (ground (arith, has_break-trim_right p s (ground (arith, h))))

split-unbroken : (s : Str) → has_break s ≡ false → split_from b'\n' s ≡ (s, [])
unfolding split_from
split-unbroken [] h = refl
split-unbroken (c ∷ s) h = ground (arith, split-unbroken s)

has_break-join_with :
    (b : Bool) (t : Str)
    → has_break t ≡ false
    → has_break (join_with (str "\n") (if b then t ∷ [] else [])) ≡ false
unfolding join_with
has_break-join_with true t h = h
has_break-join_with false t h = refl

-- The lines of a page's text are joined into one before they are looked for: the result has no line
-- break, whatever the page.
pub has_break-extract_text : (html : Str) → has_break (extract_text html) ≡ false
unfolding extract_text clean_lines join_with trim_space trim split
has_break-extract_text html = rw (split-unbroken (collapsed html) (has_break-collapsed html)) (
    has_break-join_with
      (not (str_eq (trim_right is_space (trim_left is_space (collapsed html))) []))
      (trim_right is_space (trim_left is_space (collapsed html)))
      (has_break-trim_right is_space (trim_left is_space (collapsed html))
        (has_break-trim_left is_space (collapsed html) (has_break-collapsed html))))

abbrev pub is_web_scheme : Str → Bool
is_web_scheme scheme = str_eq scheme (str "http") || str_eq scheme (str "https")

-- A page that was made of the answer to a request for the URL of the arguments, which is a URL of
-- http or https with a host: it has the status of the answer, and of the text of its body as many
-- bytes as are allowed.
abbrev pub IsFetched :
    (Str → Parsed) → (Str → Answer) → (Str → Option Str) → WebFetchTool → Fields → Page → Type 0
IsFetched parse_url get pretty t args p =
    let max = chars_of t.max_chars (get_float (str "maxChars") args) in
    (u : Url) × (kind : Str) × (body : Str) × (get_string (str "url") args ≡ some p.url)
    × (parse_url p.url ≡ parsed u)
    × (is_web_scheme u.scheme ≡ true)
    × (u.host ≢ [])
    × (get p.url ≡ got p.status kind body)
    × (p.text ≡ take max (body_text parse_url get pretty kind body).0)
    × (length p.text ≤ max)

module _ (parse_url : Str → Parsed) (get : Str → Answer) (pretty : Str → Option Str) where
  -- What is made of an answer.
  abbrev IsMade : Str → ℕ → Answer → Page → Type 0
  IsMade url max a p =
      (kind : Str) × (body : Str) × (p.url ≡ url)
      × (a ≡ got p.status kind body)
      × (p.text ≡ take max (body_text parse_url get pretty kind body).0)
      × (length p.text ≤ max)
