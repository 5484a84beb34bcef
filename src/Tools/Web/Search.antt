-- ===== src/Tools/Web/Search.antt =====
-- `WebSearchTool` of pkg/tools/web.go. `exchange` is the request with its answer's body, or the text
-- of an error; `escape` is `url.QueryEscape`, `read_results` the decoding of the body.
use picoclawnim.Base.{
  ℕ, zero, suc, ◌&&◌, Option, none, some, List, [], ◌∷◌, ◌++◌, Str, str, str_eq, if◌then◌else◌,
}
use picoclawnim.Base.Int.{ℤ, pos, leb_ℤ, ltb_ℤ, pos_part}
use picoclawnim.Base.Decimal.{decimal}
use picoclawnim.Base.Strings.{join_with}
use picoclawnim.Json.{Float64, truncated, Fields, get_string, get_float}
use picoclawnim.Tools.Registry.{ToolResult, ok, err}

pub record WebSearchTool : Type 0 where
  pub api_key : Str
  pub max_results : ℕ

pub record SearchResult : Type 0 where
  pub title : Str
  pub url : Str
  pub description : Str

pub data Body : Type 0 where
  body : Str → Body
  not_created request_failed read_failed : Str → Body

-- The results in an answer's body, or the text of the error.
pub data Decoded : Type 0 where
  results : List SearchResult → Decoded
  not_decoded : Str → Decoded

-- A count from 1 to 10, and the default otherwise.
unfoldable pub in_range : ℕ → ℤ → ℕ
in_range default n = if ltb_ℤ (pos 0) n && leb_ℤ n (pos 10) then pos_part n else default

unfoldable pub new_web_search_tool : Str → ℤ → WebSearchTool
unfolding in_range
new_web_search_tool key n = record { api_key = key; max_results = in_range 5 n }

unfoldable pub count_of : ℕ → Option Float64 → ℕ
unfolding in_range
count_of default none = default
count_of default (some f) = in_range default (truncated f)

unfoldable pub result_lines : ℕ → SearchResult → List Str
result_lines i r =
    (decimal i ++ (str ". " ++ (r.title ++ (str "\n   " ++ r.url))))
    ∷ (if str_eq r.description [] then [] else (str "   " ++ r.description) ∷ [])

-- The lines of the results from the i-th on.
unfoldable pub results_from : ℕ → ℕ → List SearchResult → List Str
unfolding result_lines
results_from zero i rs = []
results_from (suc left) i [] = []
results_from (suc left) i (r ∷ rs) = result_lines i r ++ results_from left (suc i) rs

unfoldable pub results_text : Str → ℕ → List SearchResult → Str
unfolding results_from
results_text query count [] = str "No results for: " ++ query
results_text query count (r ∷ rs) =
    join_with (str "\n") ((str "Results for: " ++ query) ∷ results_from count 1 (r ∷ rs))

module _ (escape : Str → Str) (exchange : Str → Str → Body) (read_results : Str → Decoded) where
  unfoldable pub search_url : Str → ℕ → Str
  search_url query count =
      str "https://api.search.brave.com/res/v1/web/search?q="
      ++ (escape query ++ (str "&count=" ++ decimal count))

  unfoldable pub shown : Str → ℕ → Decoded → ToolResult
  unfolding results_text
  shown query count (not_decoded e) = err (str "failed to parse response: " ++ e)
  shown query count (results rs) = ok (results_text query count rs)

  unfoldable pub search_answer : Str → ℕ → Body → ToolResult
  unfolding shown
  search_answer query count (not_created e) = err (str "failed to create request: " ++ e)
  search_answer query count (request_failed e) = err (str "request failed: " ++ e)
  search_answer query count (read_failed e) = err (str "failed to read response: " ++ e)
  search_answer query count (body b) = shown query count (read_results b)

  unfoldable pub search_query : WebSearchTool → Option Str → Fields → ToolResult
  unfolding search_answer search_url count_of
  search_query t none args = err (str "query is required")
  search_query t (some query) args =
      let count = count_of t.max_results (get_float (str "count") args) in
      search_answer query count (exchange (search_url query count) t.api_key)

  -- `Execute`
  unfoldable pub execute_search : WebSearchTool → Fields → ToolResult
  unfolding search_query
  execute_search t args =
      if str_eq t.api_key []
      then ok (str "Error: BRAVE_API_KEY not configured")
      else search_query t (get_string (str "query") args) args
