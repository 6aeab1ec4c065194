-- ===== src/Dashboard/Page.antt =====
-- The handler of the dashboard's page (cmd/controller/dashboard.go). The page itself is an argument.
use crybaby.Base.{
  ℕ, zero, suc, ◌-◌, String, true, false, Option, none, some, ◌==◌, text_eq, if◌then◌else◌,
}
use crybaby.Base.Spaces.{has_prefix}
use crybaby.Base.Text.{◌<>◌}

-- The number of characters.
unfoldable pub size : String → ℕ
size String.[] = zero
size (String.◌∷◌ c s) = suc (size s)

-- The text from a place on, of which the first `skip` characters belong to what was replaced.
unfoldable pub replaced : String → String → ℕ → String → String
unfolding size
replaced old new skip String.[] = ""
replaced old new (suc k) (String.◌∷◌ c s) = replaced old new k s
replaced old new zero (String.◌∷◌ c s) = elim (has_prefix (String.◌∷◌ c s) old) [
  | true ↦ new <> replaced old new (size old - 1) s
  | false ↦ String.◌∷◌ c (replaced old new zero s)
]

-- `strings.ReplaceAll(s, old, new)` for a text `old` that is not empty
unfoldable pub replace_all : String → String → String → String
unfolding replaced
replace_all s old new = replaced old new zero s

-- The page for the path `/`, with the cluster's token and the port; `none` is the answer 404.
unfoldable pub handle_web_dashboard : String → String → String → String → Option String
unfolding replace_all
handle_web_dashboard dashboard_html cluster_token port path =
    if path == "/"
    then some
        (replace_all (replace_all dashboard_html "{{CLUSTER_TOKEN}}" cluster_token) "{{PORT}}" port)
    else none
