-- ===== src/Resource/Texts.antt =====
-- The texts that src/collectors.cpp writes: the description of a chart and the HTTP responses.
use watched_agent.Base.{List, [], ◌∷◌, ◌++◌, Str, length, codes}
use watched_agent.Text.{to_string}

-- The two lists of Ressource::getMorrisDesc, on the properties in the order of std::map.
unfoldable quoted : Str → List Str → Str
quoted sep [] = []
quoted sep (s ∷ ss) = sep ++ (codes "'" ++ (s ++ (codes "'" ++ quoted (codes ",") ss)))

unfoldable names_of : List (Str × Str) → List Str
names_of [] = []
names_of (e ∷ es) = e.0 ∷ names_of es

unfoldable labels_of : List (Str × Str) → List Str
labels_of [] = []
labels_of (e ∷ es) = e.1 ∷ labels_of es

-- Ressource::getMorrisDesc
unfoldable get_morris_desc : List (Str × Str) → Str
get_morris_desc d =
    codes "ykeys: ["
    ++ (quoted [] (names_of d)
        ++ (codes "], " ++ (codes "labels: [" ++ (quoted [] (labels_of d) ++ codes "]"))))

unfoldable pub with_length : Str → Str → Str
with_length head content =
    head
    ++ (codes "Content-Length: " ++ (to_string (length content) ++ (codes "\r\n\r\n" ++ content)))

-- setResponse404, setResponseHtml and setResponseJson
unfoldable response_404 : Str → Str
response_404 content =
    with_length (codes "HTTP/1.1 404 Not found\r\nServer: watched.agent\r\n") content

unfoldable response_html : Str → Str
response_html content =
    with_length
      (codes
        "HTTP/1.1 200 OK\r\nServer: watched.agent\r\nContent-Type:text/html; charset=UTF-8\r\n")
      content

unfoldable response_json : Str → Str
response_json content =
    with_length
      (codes
        "HTTP/1.1 200 OK\r\nServer: watched.agent\r\nContent-Type:application/json\r\nAccess-Control-Allow-Origin:*\r\n")
      content
