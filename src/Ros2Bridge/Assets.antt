-- ===== src/Ros2Bridge/Assets.antt =====
-- Which assets CoBridge::fetch_asset retrieves.
use Prim.Native.Char.{code}
use Prim.Native.String.{◌++◌ as append}
use text.Mathlib.TextLemmas.{nil-append, cons-append}
use co_bridge.Base.{
  ℕ, ◌≡◌, refl, ap, ◌∙◌, ◌⊎◌, inl, inr, String, List, [], ◌∷◌, true, false, none, nat_eq_iff, All,
  any, arith,
}
use co_bridge.Base.Text.{has_part, begins_with}
use co_bridge.Base.Action.{try_catch, ◌>>=◌}
use co_bridge.Server.Types.{FetchAssetResponse, success, error}
use co_bridge.Server.Environment.{Environment}
use co_bridge.Server.Frames.{send_fetch_asset_response}
use co_bridge.Server.Dispatch.{bytes_of}
use co_bridge.Server.Subscriptions.{is_whitelisted}
use co_bridge.Ros2Bridge.State.{Bridge, BridgeOptions, Ros, retrieve, call_ros, on_server}
use co_bridge.Ros2Bridge.Handlers.{is_allowed_asset, retrieve_asset, asset_error, fetch_asset}

begins_with-append : (d t : String) → begins_with d (append d t) ≡ true
unfolding begins_with
begins_with-append String.[] t = refl
begins_with-append (String.◌∷◌ c d) t =
    ap (begins_with (String.◌∷◌ c d)) (cons-append c d t)
    ∙ unfold begins_with in rw ((nat_eq_iff (code c) (code c)).1 refl) (begins_with-append d t)

has_part-begins : (d s : String) → begins_with d s ≡ true → has_part s d ≡ true
unfolding has_part
has_part-begins d String.[] h = h
has_part-begins d (String.◌∷◌ c s) h = rw h refl

-- A part is found wherever it stands.
has_part-append : (s d t : String) → has_part (append s (append d t)) d ≡ true
unfolding has_part
has_part-append String.[] d t =
    ap (λ u. has_part u d) (nil-append (append d t))
    ∙ has_part-begins d (append d t) (begins_with-append d t)
has_part-append (String.◌∷◌ c s) d t =
    ap (λ u. has_part u d) (cons-append c s (append d t))
    ∙ unfold has_part in ground (arith, has_part-append s d t)

not_whitelisted :
    (env : Environment) (name : String) (patterns : List String)
    → All (λ p. env.regex_match name p ≡ false) patterns
    → is_whitelisted env name patterns ≡ false
unfolding is_whitelisted any
not_whitelisted env name [] h = refl
not_whitelisted env name (p ∷ ps) h = rw h.0 (not_whitelisted env name ps h.1)

abbrev pub asset_failure : String → ℕ → FetchAssetResponse
asset_failure asset_id request_id = record {
  request_id = request_id;
  status = error;
  error_message = bytes_of (append "Failed to retrieve asset " asset_id);
  bytes = [];
}

refused :
    (env : Environment) (ros : Ros) (options : BridgeOptions) (asset_id : String)
    (request_id hdl : ℕ) (b : Bridge)
    → is_allowed_asset env ros options asset_id ≡ false
    → fetch_asset env ros options asset_id request_id hdl b
      ≡ on_server (send_fetch_asset_response env hdl (asset_failure asset_id request_id)) b
unfolding fetch_asset retrieve_asset ◌>>=◌ try_catch asset_error
refused env ros options asset_id request_id hdl b h = rw h refl

-- An asset whose URI has two dots in a row, or which no pattern of the allowlist matches, is never asked
-- for: the client is sent the error response, and nothing else happens.
pub fetch_asset-refused :
    (env : Environment) (ros : Ros) (options : BridgeOptions) (asset_id : String)
    (request_id hdl : ℕ) (b : Bridge)
    → ((before : String) × (after : String) × (asset_id ≡ append before (append ".." after)))
      ⊎ All (λ p. env.regex_match asset_id p ≡ false) options.asset_uri_allowlist_patterns
    → fetch_asset env ros options asset_id request_id hdl b
      ≡ on_server (send_fetch_asset_response env hdl (asset_failure asset_id request_id)) b
fetch_asset-refused env ros options asset_id request_id hdl b (inl (before, after, e)) =
    refused env ros options asset_id request_id hdl b (
      let d : has_part asset_id ".." ≡ true = rw e (has_part-append before ".." after) in
      unfold is_allowed_asset in rw d refl)
fetch_asset-refused env ros options asset_id request_id hdl b (inr h) =
    refused env ros options asset_id request_id hdl b (
      let w = not_whitelisted env asset_id options.asset_uri_allowlist_patterns h in
      unfold is_allowed_asset in ground (arith, w))

-- An asset on the allowlist, without two dots in a row, whose retrieval does not fail is sent to the
-- client with its bytes.
pub fetch_asset-sends :
    (env : Environment) (ros : Ros) (options : BridgeOptions) (asset_id : String)
    (request_id hdl : ℕ) (b : Bridge)
    → has_part asset_id ".." ≡ false
    → is_whitelisted env asset_id options.asset_uri_allowlist_patterns ≡ true
    → ros.failure b.ros_calls (retrieve asset_id) ≡ none
    → fetch_asset env ros options asset_id request_id hdl b
      ≡ on_server
          (send_fetch_asset_response env hdl (record {
            request_id = request_id;
            status = success;
            error_message = [];
            bytes = ros.resource asset_id;
          }))
          (record b { ros_calls = retrieve asset_id ∷ b.ros_calls })
unfolding fetch_asset retrieve_asset ◌>>=◌ try_catch asset_error is_allowed_asset call_ros
fetch_asset-sends env ros options asset_id request_id hdl b d w f = rw (d, w, f) refl
