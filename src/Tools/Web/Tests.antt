-- ===== src/Tools/Web/Tests.antt =====
-- The theorems on the web tools (pkg/tools/web.go) for one page and one search, and runs of the code.
use picoclawnim.Base.{ℕ, ◌≤◌, ◌≡◌, refl, true, false, none, Option, List, [], ◌∷◌, ◌++◌, Str, str}
use picoclawnim.Base.Int.{pos}
use picoclawnim.Json.{Fields, field, end, text}
use picoclawnim.Tools.Registry.{ok}
use picoclawnim.Tools.Web.Text.{extract_text}
use picoclawnim.Tools.Web.Search.{results, new_web_search_tool, body, execute_search}
use picoclawnim.Tools.Web.Fetch.{Parsed, parsed, Answer, got, Page}

abbrev html : Str
html = str "<html><script>x<y</script><p>one</p>\n<p>two</p></html>"

extracted : extract_text html ≡ str "one two"
unfolding extract_text picoclawnim.Base.Strings.join_with picoclawnim.Base.Strings.split
    picoclawnim.Base.str_eq picoclawnim.Base.Strings.trim_space picoclawnim.Base.Strings.trim
    picoclawnim.Base.Strings.trim_right picoclawnim.Base.Strings.trim_left
    picoclawnim.Base.Strings.split_from picoclawnim.Base.Replace.replace_matches
    picoclawnim.Base.Replace.replace_from picoclawnim.Base.Replace.match_region
    picoclawnim.Base.has_prefix picoclawnim.Base.Replace.index picoclawnim.Base.Strings.is_space
    picoclawnim.Base.Replace.match_spaces
extracted = refl

abbrev example_url : Str → Parsed
example_url s = parsed (record { scheme = str "https"; host = str "example.org" })

abbrev example_page : Str → Answer
example_page u = got 200 (str "text/plain") (str "hello")

abbrev ask : Fields
ask = field (str "url") (text (str "https://example.org")) end

abbrev hello : Page
hello = record {
  url = str "https://example.org";
  status = 200;
  extractor = str "raw";
  truncated = false;
  length = 5;
  text = str "hello";
}

searched :
    execute_search
      (λ s. s)
      (λ u k. body u)
      (λ b. results (record { title = str "t"; url = str "u"; description = [] } ∷ []))
      (new_web_search_tool (str "k") (pos 3))
      (field (str "query") (text (str "q")) end)
    ≡ ok (str "Results for: q\n1. t\n   u")
unfolding execute_search picoclawnim.Base.str_eq new_web_search_tool picoclawnim.Json.get_string
    picoclawnim.Json.get_field picoclawnim.Base.Strings.join_with picoclawnim.Json.get_float
    picoclawnim.Base.Decimal.decimal
searched = refl
