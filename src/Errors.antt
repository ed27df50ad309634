-- ===== src/Errors.antt =====
-- Go's error values as the controllers see them, and the classifiers of internal/cloudscale/client.go.
-- What fmt.Errorf wraps with %w is kept below `wrap`; the text of an error of the SDK or of the Go
-- library is a field, since the code only prints it or looks for a phrase in it.
use text.Mathlib.Text.{find?}
use cluster_api_provider_clo.Base.{
  ℕ, String, Bool, true, false, Option, none, some, List, [], ◌∷◌, eqb, is_some, if◌then◌else◌,
  ◌<>◌,
}

pub data Error : Type 0 where
  -- *cloudscalesdk.ErrorResponse: the status code and the text
  response : ℕ → String → Error
  -- *url.Error: what Timeout() answers and the text
  url_error : Bool → String → Error
  -- an error that is os.ErrDeadlineExceeded
  deadline_exceeded : String → Error
  -- errors.New, or fmt.Errorf without %w
  plain : String → Error
  -- fmt.Errorf("<context>: %w", cause)
  wrap : String → Error → Error
  -- errors.Join, two at a time
  join : Error → Error → Error
  -- the package's sentinels
  network_not_ready : Error
  server_group_not_empty : Error

-- err.Error()
unfoldable pub error_text : Error → String
error_text (response n s) = s
error_text (url_error b s) = s
error_text (deadline_exceeded s) = s
error_text (plain s) = s
error_text (wrap s e) = s <> ": " <> error_text e
error_text (join e f) = error_text e <> "\n" <> error_text f
error_text network_not_ready = "network has pending dependencies"
error_text server_group_not_empty = "server group still contains owned servers"

abbrev pub or_else {ℓ} : {A : Type ℓ} → Option A → Option A → Option A
or_else none b = b
or_else (some a) b = some a

-- errors.As(err, &errResp): the status of the first ErrorResponse in the tree.
unfoldable pub as_response : Error → Option ℕ
as_response (response n s) = some n
as_response (wrap s e) = as_response e
as_response (join e f) = or_else (as_response e) (as_response f)
as_response _ = none

-- errors.AsType[*url.Error](err): what Timeout() of the first one answers.
unfoldable pub as_url_error : Error → Option Bool
as_url_error (url_error b s) = some b
as_url_error (wrap s e) = as_url_error e
as_url_error (join e f) = or_else (as_url_error e) (as_url_error f)
as_url_error _ = none

-- errors.Is(err, os.ErrDeadlineExceeded)
unfoldable pub is_deadline : Error → Bool
is_deadline (deadline_exceeded s) = true
is_deadline (wrap s e) = is_deadline e
is_deadline (join e f) = if is_deadline e then true else is_deadline f
is_deadline _ = false

-- errors.Is(err, errNetworkNotReady)
unfoldable pub is_network_not_ready : Error → Bool
is_network_not_ready network_not_ready = true
is_network_not_ready (wrap s e) = is_network_not_ready e
is_network_not_ready (join e f) = if is_network_not_ready e then true else is_network_not_ready f
is_network_not_ready _ = false

-- errors.Is(err, errServerGroupNotEmpty)
unfoldable pub is_server_group_not_empty : Error → Bool
is_server_group_not_empty server_group_not_empty = true
is_server_group_not_empty (wrap s e) = is_server_group_not_empty e
is_server_group_not_empty (join e f) =
    if is_server_group_not_empty e then true else is_server_group_not_empty f
is_server_group_not_empty _ = false

status_is_404 : Option ℕ → Bool
status_is_404 none = false
status_is_404 (some n) = eqb n 404

-- IsNotFound on an error that is not nil
unfoldable pub error_is_not_found : Error → Bool
unfolding as_response status_is_404
error_is_not_found e = status_is_404 (as_response e)

unfoldable pub is_not_found : Option Error → Bool
unfolding error_is_not_found
is_not_found none = false
is_not_found (some e) = error_is_not_found e

timeout_of : Option Bool → Error → Bool
timeout_of (some b) e = b
timeout_of none e = is_deadline e

-- IsTimeoutError on an error that is not nil
unfoldable pub is_timeout_error : Error → Bool
unfolding as_url_error is_deadline timeout_of
is_timeout_error e = timeout_of (as_url_error e) e

-- strings.Contains(err.Error(), phrase)
unfoldable pub error_contains : Error → String → Bool
unfolding error_text
error_contains e phrase = is_some (find? (error_text e) phrase)

unfoldable pub is_floating_ip_no_public_interface : Error → Bool
unfolding error_contains
is_floating_ip_no_public_interface e =
    error_contains e "does not have a public interface with an IPv4 address"

-- isLBPoolMembersError of internal/controller/cloudscalecluster_network.go
unfoldable pub is_lb_pool_members_error : Option Error → Bool
unfolding error_contains
is_lb_pool_members_error none = false
is_lb_pool_members_error (some e) = error_contains e "load balancer pool members"

join_with : Error → Option Error → Error
join_with e none = e
join_with e (some f) = join e f

-- errors.Join(errs...): nil where there is no error.
unfoldable pub join_errors : List Error → Option Error
unfolding join_with
join_errors [] = none
join_errors (e ∷ es) = some (join_with e (join_errors es))

-- A name in a message, as %q prints it.
abbrev pub quote : String → String
quote s = "\"" <> s <> "\""
