-- ===== src/Verifier/Hmac.antt =====
-- internal/verifier/hmac.go: requests signed with a client's secret. The cache of secrets is the
-- state; the clock, the disk and the hash functions are arguments. The counter of rejections and
-- the locks are left out.
pub mod Names
pub mod Secrets
pub mod Signed
pub mod Header
use veilgate.Prelude.{
  ℕ, ◌+◌, Bool, true, false, not, ◌&&◌, ◌||◌, List, [], ◌∷◌, ◌++◌, Option, none, some, Bytes, codes,
  ◌==◌, nat_eq, bytes_eq, ltb, leb, if◌then◌else◌, is_empty, is_some, trim_space, split, cut,
  contains, all, lookup, insert, take, length, ℤ, pos, negsuc, parse_int64, decimal, hex_encode,
  hex_decode,
}
use veilgate.Http.{Request, header_get}
use veilgate.Verifier.{no_result, rejected, Result, Step, Verifier}
use veilgate.Verifier.Disk.{Disk, Crypto, Built, built, config_error, disk_error}

pub record HmacConfig : Type 0 where
  pub header_signature : Bytes
  pub header_client : Bytes
  pub clock_skew_sec : ℕ
  pub max_body_bytes : ℕ
  pub clients_dir : Bytes

pub record SecretEntry : Type 0 where
  pub secret : Bytes
  pub mtime : ℕ

abbrev pub Cache : Type 0
Cache = List (Bytes × SecretEntry)

pub record HmacVerifier : Type 0 where
  pub cfg : HmacConfig
  pub cache : Cache

abbrev or_default : Bytes → Bytes → Bytes
or_default default s = if is_empty s then default else s

abbrev or_number : ℕ → ℕ → ℕ
or_number default n = if n == 0 then default else n

-- `NewHMACVerifier`. A negative number counts as 0.
unfoldable pub new_hmac_verifier : Disk → HmacConfig → Built HmacVerifier
new_hmac_verifier disk cfg =
    let filled : HmacConfig = record {
      header_signature = or_default (codes "X-Veilgate-Signature") cfg.header_signature;
      header_client = or_default (codes "X-Veilgate-Client") cfg.header_client;
      clock_skew_sec = or_number 300 cfg.clock_skew_sec;
      max_body_bytes = or_number 1048576 cfg.max_body_bytes;
      clients_dir = cfg.clients_dir;
    } in
    if is_empty cfg.clients_dir
    then config_error (codes "hmac verifier: clients_dir is required")
    else if is_some (disk.stat_dir cfg.clients_dir)
    then built (record { cfg = filled; cache = [] })
    else disk_error

abbrev pub safe_byte : ℕ → Bool
safe_byte c =
    leb b'a' c && leb c b'z'
    || leb b'A' c && leb c b'Z'
    || leb b'0' c && leb c b'9'
    || c == b'-'
    || c == b'_'
    || c == b'.'

unfoldable pub valid_client_name : Bytes → Bool
valid_client_name s = not (is_empty s || contains s (codes "..")) && all safe_byte s

-- The loop of `parseSigHeader`: the timestamp and the signature so far.
unfoldable pub scan_parts : List Bytes → ℤ → Bytes → Option (ℤ × Bytes)
scan_parts [] ts sig = some (ts, sig)
scan_parts (part ∷ parts) ts sig = elim (cut b'=' (trim_space part)) [
  | none ↦ scan_parts parts ts sig
  | some (key, value) ↦
      if key == codes "t"
      then elim (parse_int64 value) [ none ↦ none | some n ↦ scan_parts parts n sig ]
      else if key == codes "v1"
      then scan_parts parts ts value
      else scan_parts parts ts sig
]

abbrev checked_parts : Option (ℤ × Bytes) → Option (ℕ × Bytes)
checked_parts none = none
checked_parts (some (negsuc _, sig)) = none
checked_parts (some (pos ts, sig)) = if is_empty sig then none else some (ts, sig)

unfoldable pub parse_sig_header : Bytes → Option (ℕ × Bytes)
unfolding scan_parts
parse_sig_header h = checked_parts (scan_parts (split b',' h) (negsuc 0) [])

abbrev read_secret : Disk → Bytes → Bytes → Cache → ℕ → Cache × Option Bytes
read_secret disk dir client cache mtime = elim (disk.read_file dir (client ++ codes ".secret")) [
  | none ↦ (cache, none)
  | some b ↦
      (insert client (record { secret = trim_space b; mtime = mtime }) cache, some (trim_space b))
]

-- `loadSecret`: the cache after it, and the secret, `none` for an error.
unfoldable pub load_secret : Disk → Bytes → Bytes → Cache → Cache × Option Bytes
load_secret disk dir client cache = elim (disk.stat dir (client ++ codes ".secret")) [
  | none ↦ (cache, none)
  | some mtime ↦ elim (lookup client cache) [
    | none ↦ read_secret disk dir client cache mtime
    | some entry ↦
        if entry.mtime == mtime
        then (cache, some entry.secret)
        else read_secret disk dir client cache mtime
  ]
]

-- `LoadedClients`
abbrev pub loaded_clients : Cache → ℕ
loaded_clients cache = length cache

-- `readCappedBody`: the bytes that are hashed. A read that fails is not modelled.
abbrev capped_body : ℕ → Option Bytes → Bytes
capped_body max none = []
capped_body max (some b) = take max b

abbrev replaced_body : ℕ → Option Bytes → Option Bytes
replaced_body max none = none
replaced_body max (some b) = some (take max b)

-- The bytes that are hashed, and the request with what is left of its body.
unfoldable pub read_capped_body : ℕ → Request → Request × Bytes
read_capped_body max r = (
  record {
    method = r.method;
    path = r.path;
    remote_addr = r.remote_addr;
    proto_major = r.proto_major;
    proto_minor = r.proto_minor;
    headers = r.headers;
    transfer_encoding = r.transfer_encoding;
    content_length = r.content_length;
    body = replaced_body max r.body;
  },
  capped_body max r.body,
)

-- The text that is signed.
unfoldable pub canonical : Crypto → ℕ → Request → Bytes → Bytes
canonical crypto ts r body =
    decimal ts
    ++ (codes "."
        ++ (r.method ++ (codes "." ++ (r.path ++ (codes "." ++ hex_encode (crypto.sha256 body))))))

-- The window of `Verify`; `now` and the skew are far below 2^63.
abbrev pub outside_window : ℕ → ℕ → ℕ → Bool
outside_window skew now ts = ltb (ts + skew) now || ltb (now + skew) ts

abbrev hmac : Bytes
hmac = codes "hmac"

abbrev judged : Bytes → Option Bytes → Bytes → Result
judged expected none client = rejected hmac (codes "signature not hex")
judged expected (some provided) client =
    if expected == provided
    then record {
      accepted = true;
      name = hmac;
      client = client;
      reason = codes "valid HMAC signature";
    }
    else rejected hmac (codes "signature mismatch")

module _ (crypto : Crypto) (disk : Disk) (now : ℕ) (cfg : HmacConfig) where
  abbrev declined : Cache → Request → Result → Step Cache
  declined cache r result = record { state = cache; request = r; result = result }

  -- From the secret on.
  unfoldable pub verify_signature : Bytes → ℕ → Bytes → Cache → Request → Step Cache
  verify_signature client ts sig cache r =
      let (cache', found) = load_secret disk cfg.clients_dir client cache in
      let (r', body) = read_capped_body cfg.max_body_bytes r in
      elim found [
        | none ↦ declined cache' r (rejected hmac (codes "unknown client"))
        | some secret ↦ record {
          state = cache';
          request = r';
          result =
              judged (crypto.hmac_sha256 secret (canonical crypto ts r body)) (hex_decode sig)
                client;
        }
      ]

  -- `HMACVerifier.Verify`
  unfoldable pub hmac_verify : Cache → Request → Step Cache
  hmac_verify cache r =
      let header = header_get cfg.header_signature r in
      let client = trim_space (header_get cfg.header_client r) in
      if is_empty header
      then declined cache r no_result
      else if is_empty client
      then declined cache r (rejected hmac (codes "client header missing"))
      else if not (valid_client_name client)
      then declined cache r (rejected hmac (codes "client header invalid characters"))
      else elim (parse_sig_header header) [
        | none ↦ declined cache r (rejected hmac (codes "signature header malformed"))
        | some (ts, sig) ↦
            if outside_window cfg.clock_skew_sec now ts
            then declined cache r (rejected hmac (codes "timestamp outside skew window"))
            else verify_signature client ts sig cache r
      ]

  unfoldable pub hmac_verifier : Verifier Cache
  hmac_verifier = record { name = hmac; verify = hmac_verify; descriptor = none }
