-- ===== src/HttpServer.antt =====
-- The HTTP server (http_server/src/http_server.cpp): what run_server does with the text that it
-- read from a connection.
pub mod Paths
use Prim.Native.String.{◌++◌}
use co_bridge.Base.{String, List, [], ◌∷◌, Option, none, some, leb, ◌==◌, text_keys, if◌then◌else◌}
use co_bridge.Base.Text.{begins_with, drop_chars, size}

pub data LogLevel : Type 0 where
  debug info warn error fatal : LogLevel

-- The two texts that run_server makes before its loop.
pub data HttpText : Type 0 where
  http_response not_found_response : HttpText

-- A call of `log` or of `send`.
pub data Call : Type 0 where
  log : LogLevel → String → Call
  send : HttpText → Call

-- `s.substr(p + size)` for `p = s.find(d)`, and `none` for `npos`.
unfoldable pub text_after : String → String → Option String
unfolding begins_with drop_chars size
text_after d String.[] = if begins_with d String.[] then some String.[] else none
text_after d (String.◌∷◌ c s) =
    let rest = text_after d s in
    if begins_with d (String.◌∷◌ c s) then some (drop_chars (size d) (String.◌∷◌ c s)) else rest

abbrev pub longer : {A : Type 0} → (A → A) → Option A → Option A
longer f none = none
longer f (some a) = some (f a)

-- `s.substr(0, p)` for `p = s.find(d)`, and `none` for `npos`.
unfoldable pub text_before : String → String → Option String
unfolding begins_with
text_before d String.[] = if begins_with d String.[] then some String.[] else none
text_before d (String.◌∷◌ c s) =
    let rest = text_before d s in
    if begins_with d (String.◌∷◌ c s) then some String.[] else longer (String.◌∷◌ c) rest

module _ (json_str : String) where
  unfoldable pub respond : String → List Call
  respond path =
      log debug ("Received request for path: " ++ path)
      ∷ (if path == "/device-info"
          then send http_response ∷ log info ("Sent device info response: " ++ json_str) ∷ []
          else send not_found_response ∷ log warn ("Path not found: " ++ path) ∷ [])

  abbrev pub refuse : String → List Call
  refuse message = send not_found_response ∷ log warn message ∷ []

  unfoldable pub answer_path : String → List Call
  unfolding respond size
  answer_path path =
      if leb 1 (size path) then respond path else refuse "Invalid HTTP request format"

  unfoldable pub answer_get : Option String → List Call
  unfolding answer_path
  answer_get none = refuse "Invalid HTTP request format"
  answer_get (some path) = answer_path path

  unfoldable pub answer_rest : Option String → List Call
  unfolding answer_get text_before
  answer_rest none = refuse "Not a GET request"
  answer_rest (some rest) = answer_get (text_before " HTTP/" rest)

  -- From `std::string request(buffer)` to the end of the branch.
  unfoldable pub answer : String → List Call
  unfolding answer_rest text_after
  answer request = answer_rest (text_after "GET " request)
