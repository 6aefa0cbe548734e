-- ===== src/Provider/Uri.antt =====
-- src/decent_registry/provider_schema.py: `_validate_uri_authority` and `_validate_provider_uri`.
use decent_registry.Prelude.{
  ℕ, Bool, false, ◌&&◌, ◌||◌, not, List, [], ◌∷◌, ltb, leb, ◌==◌, if◌then◌else◌, length, map, drop,
  Result, Done, ok, value_error, ◌>>=◌, ◌>>◌, raise_if, or_raise, rethrow, bytes_eq, contains,
}
use decent_registry.Cbor.{Text, Library, SplitResult}
use decent_registry.Provider.Chars.{
  is_digit, is_upper, is_lower, is_alnum, hex_digit, unreserved, sub_delimiter, pchar, uri_allowed,
  all_chars, count, starts_with, is_nil, partition, rpartition, partition_zone, lower,
  valid_uri_component, bad_percent_escape,
}

-- `_PORT_RE.fullmatch`
abbrev is_port : Text → Bool
is_port s = not (is_nil s) && all_chars is_digit s

abbrev ipvfuture_tail : ℕ → Bool
ipvfuture_tail c = unreserved c || sub_delimiter c || c == b':'

-- `ipvfuture_re.fullmatch`: the version is hexadecimal, so the first dot ends it.
ipvfuture : Text → Bool
ipvfuture [] = false
ipvfuture (v ∷ s) =
    let parts = partition b'.' s in
    (v == b'v' || v == b'V')
    && not (is_nil parts.0)
    && all_chars hex_digit parts.0
    && parts.1
    && not (is_nil parts.2)
    && all_chars ipvfuture_tail parts.2

abbrev starts_with_v : Text → Bool
starts_with_v [] = false
starts_with_v (c ∷ _) = lower c == b'v'

abbrev zone_allowed : ℕ → Bool
zone_allowed c = unreserved c || c == b'%'

check_literal : Library → Text → Result Done
unfolding ipvfuture
check_literal lib literal =
    if starts_with_v literal
    then raise_if (not (ipvfuture literal))
        (value_error "provider URI contains an invalid IP literal")
    else (let parts = partition_zone literal in
        raise_if (not (lib.is_ipv6 parts.0)) (value_error "AddressValueError")
        >> raise_if (parts.1 && not (valid_uri_component parts.2 zone_allowed))
            (value_error "provider URI contains an invalid IPv6 zone"))

abbrev bad_suffix : Text → Bool
bad_suffix [] = false
bad_suffix (c ∷ port) = not (c == b':') || (not (is_nil port) && not (is_port port))

-- The bracketed host, with the port that may follow.
check_ip_literal : Library → Text → Result Done
unfolding check_literal
check_ip_literal lib host_port = do
  let parts = partition b']' host_port
  raise_if (not parts.1) (value_error "provider URI contains an invalid IP literal")
  check_literal lib (drop 1 parts.0)
  raise_if (bad_suffix parts.2) (value_error "provider URI contains an invalid port")

abbrev userinfo_allowed : ℕ → Bool
userinfo_allowed c = pchar c && not (c == b'@')

abbrev host_allowed : ℕ → Bool
host_allowed c = unreserved c || sub_delimiter c || c == b'%'

check_host : Text → Result Done
check_host host_port = do
  raise_if
      (ltb 0 (count b'[' host_port) || ltb 0 (count b']' host_port) || ltb 1 (count b':' host_port))
      (value_error "provider URI contains an invalid authority")
  let parts = partition b':' host_port
  raise_if (not (valid_uri_component parts.0 host_allowed))
      (value_error "provider URI contains an invalid registered name")
  raise_if (parts.1 && not (is_nil parts.2) && not (is_port parts.2))
      (value_error "provider URI contains an invalid port")

pub validate_uri_authority : Library → Text → Result Done
unfolding check_ip_literal check_host
validate_uri_authority lib authority = do
  raise_if (ltb 1 (count b'@' authority)) (value_error "provider URI contains an invalid authority")
  let parts = rpartition b'@' authority
  raise_if (parts.1 && not (valid_uri_component parts.0 userinfo_allowed))
      (value_error "provider URI contains an invalid userinfo")
  if starts_with (b'[' ∷ []) parts.2 then check_ip_literal lib parts.2 else check_host parts.2

abbrev pub visible : ℕ → Bool
visible c = leb 0x21 c && leb c 0x7E

abbrev scheme_char : ℕ → Bool
scheme_char c = is_alnum c || c == b'+' || c == b'.' || c == b'-'

-- `_URI_SCHEME_RE` on what stands before the first colon.
unfoldable pub is_scheme : Text → Bool
is_scheme [] = false
is_scheme (c ∷ s) = (is_upper c || is_lower c) && all_chars scheme_char s

-- http, https, ftp, ws, wss
abbrev authority_schemes : List Text
authority_schemes =
    (b'h' ∷ b't' ∷ b't' ∷ b'p' ∷ [])
    ∷ (b'h' ∷ b't' ∷ b't' ∷ b'p' ∷ b's' ∷ [])
    ∷ (b'f' ∷ b't' ∷ b'p' ∷ [])
    ∷ (b'w' ∷ b's' ∷ [])
    ∷ (b'w' ∷ b's' ∷ b's' ∷ [])
    ∷ []

abbrev path_allowed : ℕ → Bool
path_allowed c = pchar c || c == b'/'

abbrev query_allowed : ℕ → Bool
query_allowed c = pchar c || c == b'/' || c == b'?'

check_tail : Library → Text → Result Done
unfolding check_ip_literal
check_tail lib tail =
    if starts_with (b'[' ∷ []) tail
    then check_ip_literal lib tail
    else (let parts = rpartition b':' tail in
        raise_if (parts.1 && not (is_nil parts.2) && not (is_port parts.2))
          (value_error "provider URI contains an invalid port"))

-- The body of the `try`.
check_parsed : Library → Text → SplitResult → Result Done
unfolding validate_uri_authority check_tail bytes_eq
check_parsed lib remainder parsed = do
  let special = contains (map lower parsed.scheme) authority_schemes
  let located = special && not (is_nil parsed.netloc)
  if starts_with (b'/' ∷ b'/' ∷ []) remainder
      then validate_uri_authority lib parsed.netloc
      else raise_if (special && is_nil remainder) (value_error "provider URI requires an authority")
  check_tail lib (rpartition b'@' parsed.netloc).2
  raise_if (located && ltb 0 (count b'[' parsed.path))
      (value_error "provider URI contains brackets outside an IP literal")
  raise_if (located && not (is_nil parsed.path) && not (starts_with (b'/' ∷ []) parsed.path))
      (value_error "provider URI authority path must begin with a slash")
  raise_if (not (valid_uri_component parsed.path path_allowed))
      (value_error "provider URI contains invalid path characters")
  raise_if (not (valid_uri_component parsed.query query_allowed))
      (value_error "provider URI contains invalid query characters")
  raise_if (not (valid_uri_component parsed.fragment query_allowed))
      (value_error "provider URI contains invalid fragment characters")

split_and_check : Library → Text → Text → Result Done
unfolding check_parsed
split_and_check lib uri remainder = do
  parsed ← or_raise (lib.urlsplit uri) (value_error "urlsplit")
  check_parsed lib remainder parsed

unfoldable pub validate_provider_uri : Library → Text → Result Text
unfolding split_and_check
validate_provider_uri lib uri = do
  raise_if (is_nil uri) (value_error "provider URL must be non-empty")
  raise_if (not (all_chars visible uri))
      (value_error "provider URL must contain only visible ASCII characters")
  raise_if (ltb 2048 (length uri)) (value_error "provider URL max 2048 bytes")
  let parts = partition b':' uri
  raise_if (not (parts.1 && is_scheme parts.0))
      (value_error "provider URL must be an absolute URI with a scheme")
  raise_if (not (all_chars uri_allowed uri))
      (value_error "provider URL contains characters not allowed in a URI")
  raise_if (bad_percent_escape uri) (value_error "provider URL contains an invalid percent escape")
  raise_if (ltb 0 (count b'#' uri)) (value_error "provider URL must not contain a fragment")
  if is_nil parts.2
      then ok tt
      else rethrow (split_and_check lib uri parts.2)
          (value_error "provider URL is not a valid absolute URI")
  ok uri
