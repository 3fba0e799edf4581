-- ===== src/PartnerHttp.antt =====
-- packages/partner-http/src/index.ts: `validateUrl`, `privateIp`, and what `send` makes of an
-- address and of a response. The parser of URLs, `net.isIP` and the resolver are parameters.
pub mod Laws
pub mod Public
use Prim.Native.Char.{code}
use Prim.Native.String.{String}
use partner_integration_reli.Prelude.{
  ℕ, ◌+◌, ◌*◌, ◌-◌, Bool, true, false, not, ◌&&◌, ◌||◌, leb, ltb, ◌==◌, Option, none, some, get_or,
  List, [], ◌∷◌, map, if◌then◌else◌, Result, ok, err,
}
use partner_integration_reli.Text.{decimal, codes, lower, has_prefix, str_eq, includes_text, lookup}
use partner_integration_reli.Json.Path.{split_dots}

-- The code of an `UnsafeDestinationError`, which comes with a message of its own.
pub data Unsafe : Type 0 where
  invalid_url unsafe_url invalid_scheme unsafe_address redirect encoded_response : Unsafe
  response_too_large timeout : Unsafe

unfoldable pub message : Unsafe → String
message invalid_url = "Destination URL is invalid."
message unsafe_url = "Destination URL is unsafe."
message invalid_scheme = "Destination scheme is not allowed."
message unsafe_address = "Destination address is not allowed."
message redirect = "Partner redirects are not allowed."
message encoded_response = "Encoded partner responses are not allowed."
message response_too_large = "Partner response exceeds the limit."
message timeout = "Partner request timed out."

abbrev is_wide : ℕ → Bool
is_wide a = a == 0 || a == 10 || a == 127 || leb 224 a

-- The first two numbers of an address of version 4; one that is missing is -1 in the code, which
-- meets no test.
unfoldable pub private_v4 : List String → Bool
private_v4 [] = false
private_v4 (a ∷ []) = is_wide (decimal a)
private_v4 (a ∷ b ∷ rest) =
    is_wide (decimal a)
    || (decimal a == 169 && decimal b == 254)
    || (decimal a == 172 && (leb 16 (decimal b) && leb (decimal b) 31))
    || (decimal a == 192 && decimal b == 168)
    || (decimal a == 100 && (leb 64 (decimal b) && leb (decimal b) 127))

abbrev equals : List ℕ → String → Bool
equals cs word = has_prefix cs (codes word) && has_prefix (codes word) cs

unfoldable pub private_v6 : List ℕ → Bool
private_v6 normalized =
    equals normalized "::1"
    || equals normalized "::"
    || has_prefix normalized (codes "fe80:")
    || has_prefix normalized (codes "fc")
    || has_prefix normalized (codes "fd")
    || has_prefix normalized (codes "ff")

pub record Url : Type 0 where
  pub username : String
  pub password : String
  pub hash : String
  pub hostname : String
  pub protocol : String

pub record ClientConfig : Type 0 where
  pub is_local_mode : Bool
  pub local_http_hostnames : List String
  pub max_response_bytes : Option ℕ

abbrev is_given : String → Bool
is_given s = not (str_eq s "")

-- `parse_url` is `new URL`, `is_ip` is `net.isIP`, `resolve` the lookup of a host's addresses.
module _ (parse_url : String → Option Url) (is_ip : String → ℕ) (config : ClientConfig) where
  unfoldable pub private_ip : String → Bool
  unfolding private_v4 private_v6
  private_ip value =
      if is_ip value == 4
      then private_v4 (split_dots value)
      else private_v6 (map lower (codes value))

  unfoldable pub is_local : Url → Bool
  is_local url =
      config.is_local_mode
      && (str_eq url.protocol "http:" && includes_text config.local_http_hostnames url.hostname)

  -- `addresses.some((address) => privateIp(address) && !local)`.
  unfoldable pub some_private : Bool → List String → Bool
  unfolding private_ip
  some_private local [] = false
  some_private local (a ∷ addresses) = (private_ip a && not local) || some_private local addresses

  unfoldable pub is_unsafe_url : Url → Bool
  is_unsafe_url url =
      is_given url.username
      || is_given url.password
      || is_given url.hash
      || not (is_ip url.hostname == 0)

  unfoldable pub check_addresses : Bool → List String → Result Unsafe String
  unfolding some_private
  check_addresses local [] = err unsafe_address
  check_addresses local (a ∷ addresses) =
      if some_private local (a ∷ addresses) then err unsafe_address else ok a

  unfoldable pub validate_url : (String → List String) → String → Result Unsafe Url
  unfolding is_unsafe_url is_local check_addresses
  validate_url resolve input = elim (parse_url input) [
    | none ↦ err invalid_url
    | some url ↦
        if is_unsafe_url url
        then err unsafe_url
        else if not (str_eq url.protocol "https:") && not (is_local url)
        then err invalid_scheme
        else elim (check_addresses (is_local url) (resolve url.hostname)) [
          | err e ↦ err e
          | ok a ↦ ok url
        ]
  ]

  -- The address that `send` connects to: it resolves the host again and checks the answer again.
  unfoldable pub address_of :
      (String → List String) → (String → List String) → String → Result Unsafe String
  unfolding validate_url
  address_of first second input = elim (validate_url first input) [
    | err e ↦ err e
    | ok url ↦ check_addresses (is_local url) (second url.hostname)
  ]

-- What comes back: the status line and headers, and the body in chunks of so many bytes. A header
-- that is a list of texts is left out by the code.
pub record Incoming : Type 0 where
  pub status_code : Option ℕ
  pub headers : List (String × String)
  pub chunks : List ℕ

-- The first promise to settle wins, so a body over the limit is refused whatever follows.
unfoldable pub receive_chunks : ℕ → ℕ → List ℕ → Result Unsafe ℕ
receive_chunks limit size [] = ok size
receive_chunks limit size (c ∷ chunks) =
    let rest = receive_chunks limit (size + c) chunks in
    if ltb limit (size + c) then err response_too_large else rest

abbrev pub is_redirect : Option ℕ → Bool
is_redirect none = false
is_redirect (some s) = leb 300 s && ltb s 400

abbrev pub is_encoded : Option String → Bool
is_encoded none = false
is_encoded (some e) = not (str_eq e "identity")

-- `config.maxResponseBytes ?? 64 * 1024`; the bytes received are returned.
unfoldable pub receive : ClientConfig → Incoming → Result Unsafe ℕ
unfolding receive_chunks lookup
receive config r =
    if is_redirect r.status_code
    then err redirect
    else if is_encoded (lookup "content-encoding" r.headers)
    then err encoded_response
    else receive_chunks (get_or config.max_response_bytes 65_536) 0 r.chunks
