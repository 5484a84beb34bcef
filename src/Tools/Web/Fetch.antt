-- ===== src/Tools/Web/Fetch.antt =====
-- `WebFetchTool` of pkg/tools/web.go. `parse_url` is `url.Parse` with the scheme and the host, `get`
-- the request with the answer that the client gives, after at most five redirects, `pretty` the indented form of a text that is JSON. A page stands for
-- its JSON text.
use picoclawnim.Base.{
  ℕ, Bool, not, ◌&&◌, ◌||◌, Option, none, some, [], ◌++◌, Str, str, str_eq, if◌then◌else◌, ltb,
  take, length, has_prefix, contains, to_lower,
}
use picoclawnim.Base.Int.{ℤ, pos, ltb_ℤ, leb_ℤ, pos_part}
use picoclawnim.Json.{Float64, truncated, Fields, get_string, get_float}
use picoclawnim.Tools.Web.Text.{extract_text}

pub record WebFetchTool : Type 0 where
  pub max_chars : ℕ

pub record Url : Type 0 where
  pub scheme : Str
  pub host : Str

-- The text of an error, or the status, the content type and the body.
pub data Answer : Type 0 where
  got : ℕ → Str → Str → Answer
  not_created get_failed read_failed : Str → Answer

-- A URL with its scheme and its host, or the text of the error.
pub data Parsed : Type 0 where
  parsed : Url → Parsed
  not_parsed : Str → Parsed

-- The URL is the argument, as in the source, also where the client was redirected.
pub record Page : Type 0 where
  pub url : Str
  pub status : ℕ
  pub extractor : Str
  pub truncated : Bool
  pub length : ℕ
  pub text : Str

pub data FetchResult : Type 0 where
  page : Page → FetchResult
  fetch_error : Str → FetchResult

unfoldable pub new_web_fetch_tool : ℤ → WebFetchTool
new_web_fetch_tool n = record { max_chars = if leb_ℤ n (pos 0) then 50000 else pos_part n }

unfoldable pub chars_of : ℕ → Option Float64 → ℕ
chars_of default none = default
chars_of default (some f) =
    if ltb_ℤ (pos 100) (truncated f) then pos_part (truncated f) else default

unfoldable pub json_text : Str → Option Str → Str × Str
json_text body (some s) = (s, str "json")
json_text body none = (body, str "raw")

module _ (parse_url : Str → Parsed) (get : Str → Answer) (pretty : Str → Option Str) where
  unfoldable pub is_html : Str → Str → Bool
  is_html kind body =
      contains kind (str "text/html")
      || ltb 0 (length body)
        && (has_prefix body (str "<!DOCTYPE") || has_prefix (to_lower body) (str "<html"))

  -- The text of a body, and how it was made.
  unfoldable pub body_text : Str → Str → Str × Str
  unfolding is_html json_text
  body_text kind body =
      if contains kind (str "application/json")
      then json_text body (pretty body)
      else if is_html kind body
      then (extract_text body, str "text")
      else (body, str "raw")

  unfoldable pub page_of : Str → ℕ → ℕ → Str × Str → Page
  page_of url max status (text, extractor) =
      let cut = if ltb max (length text) then take max text else text in
      record {
        url = url;
        status = status;
        extractor = extractor;
        truncated = ltb max (length text);
        length = length cut;
        text = cut;
      }

  unfoldable pub answer_page : Str → ℕ → Answer → FetchResult
  unfolding page_of body_text
  answer_page url max (not_created e) = fetch_error (str "failed to create request: " ++ e)
  answer_page url max (get_failed e) = fetch_error (str "request failed: " ++ e)
  answer_page url max (read_failed e) = fetch_error (str "failed to read response: " ++ e)
  answer_page url max (got status kind body) = page (page_of url max status (body_text kind body))

  abbrev is_web : Str → Bool
  is_web scheme = str_eq scheme (str "http") || str_eq scheme (str "https")

  unfoldable pub fetch_parsed : Str → ℕ → Parsed → FetchResult
  unfolding answer_page
  fetch_parsed url max (not_parsed e) = fetch_error (str "invalid URL: " ++ e)
  fetch_parsed url max (parsed u) =
      if not (is_web u.scheme)
      then fetch_error (str "only http/https URLs are allowed")
      else if str_eq u.host []
      then fetch_error (str "missing domain in URL")
      else answer_page url max (get url)

  unfoldable pub fetch_url : WebFetchTool → Option Str → Fields → FetchResult
  unfolding fetch_parsed chars_of
  fetch_url t none args = fetch_error (str "url is required")
  fetch_url t (some url) args =
      fetch_parsed url (chars_of t.max_chars (get_float (str "maxChars") args)) (parse_url url)

  -- `Execute`
  unfoldable pub execute_fetch : WebFetchTool → Fields → FetchResult
  unfolding fetch_url
  execute_fetch t args = fetch_url t (get_string (str "url") args) args
