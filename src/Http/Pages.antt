-- ===== src/Http/Pages.antt =====
-- The pages, scripts and styles of server/src/controller/StaticController.hpp.
use conspire.Prelude.{Bool, false, not, [], ◌∷◌, ◌++◌, Option, none, some, increment, if◌then◌else◌}
use conspire.Prelude.Bytes.{Bytes, codes}
use conspire.Prelude.Result.{Result, ok, err, ◌>>=◌, ◌>>◌, require}
use conspire.Boundaries.Text.{is_empty}
use conspire.Boundaries.Escape.{url_path_segment, javascript_string, html_text, page_title}
use conspire.Boundaries.Replace.{replace_literal}
use conspire.Config.Dto.{
  ConfigDto, value_or, get_onion_base_url, get_websocket_base_url_for_host, is_allowed_request_host,
}
use conspire.Statistics.{Statistics}
use conspire.Http.{
  Headers, HttpError, Answer, error, content_type, nosniff, no_store, cache_control, room_of,
}

-- The link to the onion service, where there is one.
unfoldable pub onion_button : Option Bytes → Bytes
onion_button none = []
onion_button (some base_url) =
    codes "<a id=\"tor-hidden-service\" class=\"button\" href=\""
    ++ (html_text base_url
        ++ codes "\" target=\"_blank\" rel=\"noopener noreferrer\">Tor hidden service</a>")

unfoldable pub render_page : Bytes → Option Bytes → Option Bytes → Bytes
unfolding onion_button
render_page file version onion_base_url =
    let titled =
      (replace_literal file (codes "%%%CONSPIRE_TITLE%%%")
        (page_title (value_or version (codes "unknown")))).0 in
    (replace_literal titled (codes "%%%TOR_HIDDEN_SERVICE_BUTTON%%%")
      (onion_button onion_base_url)).0

-- createResponse with the headers
abbrev pub respond : Headers → Bytes → Answer
respond headers body = ok (record { status = 200; headers = headers; body = some body })

-- The headers of a file that is served as it is.
abbrev pub plain_headers : Bytes → Bytes × Bytes → Headers
plain_headers type cache = content_type type ∷ nosniff ∷ cache ∷ []

abbrev pub page_headers : Bytes → Headers
page_headers policy =
    content_type (codes "text/html")
    ∷ (codes "Content-Security-Policy", policy)
    ∷ nosniff
    ∷ (codes "Referrer-Policy", codes "no-referrer")
    ∷ no_store
    ∷ []

abbrev pub dashboard_policy : Bytes
dashboard_policy =
    codes "default-src 'self'; script-src 'self'; style-src 'self' 'unsafe-inline'; "
    ++ (codes "connect-src 'self' https: http://localhost:* http://127.0.0.1:*; "
        ++ codes "base-uri 'none'; object-src 'none'; frame-ancestors 'none'")

-- `assets` is the table that the build makes (`findAsset`); an absent one is the empty text.
module _ (assets : Bytes → Bytes) where
  unfoldable pub load_asset : Bytes → Result HttpError Bytes
  load_asset path =
      if not (is_empty (assets path))
      then ok (assets path)
      else err (error 404 (codes "Asset Not Found:("))

  -- A file as it is.
  abbrev pub serve_asset : Bytes → Bytes → Bytes × Bytes → Answer
  serve_asset path type cache = do asset ← load_asset path; respond (plain_headers type cache) asset

  abbrev pub serve_room_asset : Option Bytes → Bytes → Bytes → Answer
  serve_room_asset room_id path type = do room ← room_of room_id; serve_asset path type no_store

  -- The counter goes up before anything else.
  unfoldable pub root : ConfigDto → Statistics → Statistics × Answer
  unfolding load_asset render_page
  root config statistics = (
    record statistics { front_page_loaded = increment statistics.front_page_loaded },
    do
      file ← load_asset (codes "index.html")
      respond
          (page_headers (
            codes "default-src 'self'; base-uri 'none'; object-src 'none'; frame-ancestors 'none'"))
          (render_page file config.version (get_onion_base_url config)),
  )

  unfoldable pub dashboard : ConfigDto → Answer
  unfolding load_asset render_page
  dashboard config = do
    file ← load_asset (codes "dashboard/index.html")
    respond (page_headers dashboard_policy) (render_page file config.version none)

  -- The path with a slash at its end.
  unfoldable pub dashboard_slash : ConfigDto → Answer
  unfolding load_asset render_page
  dashboard_slash config = do
    file ← load_asset (codes "dashboard/index.html")
    respond (page_headers dashboard_policy) (render_page file config.version none)

  unfoldable pub dashboard_js : ConfigDto → Answer
  unfolding load_asset
  dashboard_js config = do
    let stats_path = javascript_string (b'/' ∷ value_or config.statistics_url [])
    script ← load_asset (codes "dashboard/app.js")
    respond (plain_headers (codes "text/javascript") no_store) (
        codes "globalThis.ConspireDashboardConfig = {statsUrl: "
        ++ (stats_path ++ (codes "};" ++ (10 ∷ 10 ∷ script))))

  unfoldable pub dashboard_chart_js : Answer
  unfolding load_asset
  dashboard_chart_js =
      serve_asset (codes "dashboard/vendor/chart.umd.min.js") (codes "text/javascript")
        (cache_control (codes "public, max-age=31536000, immutable"))

  unfoldable pub style_css : Answer
  unfolding load_asset
  style_css = serve_asset (codes "style.css") (codes "text/css") no_store

  unfoldable pub design_system_css : Answer
  unfolding load_asset
  design_system_css = serve_asset (codes "design-system.css") (codes "text/css") no_store

  unfoldable pub lobby_js : Answer
  unfolding load_asset
  lobby_js = serve_asset (codes "lobby.js") (codes "text/javascript") no_store

  unfoldable pub dashboard_css : Answer
  unfolding load_asset
  dashboard_css = serve_asset (codes "dashboard/style.css") (codes "text/css") no_store

  unfoldable pub dashboard_sample_stats : Answer
  unfolding load_asset
  dashboard_sample_stats =
      serve_asset (codes "dashboard/sample-stats.json") (codes "application/json") no_store

  unfoldable pub protocol_js : Answer
  unfolding load_asset
  protocol_js = serve_asset (codes "chat/protocol.js") (codes "text/javascript") no_store

  unfoldable pub image_preview_js : Answer
  unfolding load_asset
  image_preview_js = serve_asset (codes "chat/image-preview.js") (codes "text/javascript") no_store

  unfoldable pub transport_js : Option Bytes → Answer
  unfolding load_asset
  transport_js room_id =
      serve_room_asset room_id (codes "chat/transport.js") (codes "text/javascript")

  unfoldable pub reliability_js : Option Bytes → Answer
  unfolding load_asset
  reliability_js room_id =
      serve_room_asset room_id (codes "chat/reliability.js") (codes "text/javascript")

  unfoldable pub format_js : Option Bytes → Answer
  unfolding load_asset
  format_js room_id = serve_room_asset room_id (codes "chat/format.js") (codes "text/javascript")

  unfoldable pub state_js : Option Bytes → Answer
  unfolding load_asset
  state_js room_id = serve_room_asset room_id (codes "chat/state.js") (codes "text/javascript")

  unfoldable pub ui_js : Option Bytes → Answer
  unfolding load_asset
  ui_js room_id = serve_room_asset room_id (codes "chat/ui.js") (codes "text/javascript")

  unfoldable pub chat_css : Option Bytes → Answer
  unfolding load_asset
  chat_css room_id = serve_room_asset room_id (codes "chat/chat.css") (codes "text/css")

  unfoldable pub chat_html : ConfigDto → Option Bytes → Answer
  unfolding load_asset render_page
  chat_html config room_id = do
    room ← room_of room_id
    file ← load_asset (codes "chat/index.html")
    respond
        (page_headers (
          codes
            "default-src 'self'; img-src 'self' blob:; base-uri 'none'; object-src 'none'; frame-ancestors 'none'"))
        (replace_literal (render_page file config.version none) (codes "%%%ROOM_ID%%%")
          (url_path_segment room)).0

module _ (assets : Bytes → Bytes) (null_text null_number : Bytes) where
  abbrev pub is_request_host : ConfigDto → Option Bytes → Bool
  is_request_host config none = false
  is_request_host config (some host) = is_allowed_request_host null_text null_number config host

  abbrev pub websocket_url : ConfigDto → Bytes → Bytes → Bytes
  websocket_url config host room =
      get_websocket_base_url_for_host config host
      ++ (codes "/api/ws/room/" ++ url_path_segment room)

  abbrev pub room_url : Bytes → Bytes
  room_url room = codes "/room/" ++ url_path_segment room

  unfoldable pub chat_js : ConfigDto → Option Bytes → Option Bytes → Answer
  unfolding load_asset
  chat_js config room_id request_host = do
    room ← room_of room_id
    script ← load_asset assets (codes "chat/chat.js")
    require (is_request_host config request_host) (error 400 (codes "Invalid host"))
    respond (plain_headers (codes "text/javascript") no_store) (
        codes "globalThis.ConspireChatConfig = {urlWebsocket: "
        ++ (javascript_string (websocket_url config (value_or request_host []) room)
            ++ (codes ", urlRoom: "
                ++ (javascript_string (room_url room) ++ (codes "};" ++ (10 ∷ 10 ∷ script))))))
