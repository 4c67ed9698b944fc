-- ===== src/Tlsfp/Parser.antt =====
-- internal/tlsfp/parser.go: `ParseClientHello`. The reader is the list of the bytes it will deliver
-- before its end. Positions are what is left of the bytes: `len(body) < p+n` is a test on the length
-- of the rest.
pub mod Replay
pub mod Extensions
pub mod Hello
pub mod Fuel
use veilgate.Prelude.{
  ℕ, zero, suc, ◌+◌, ◌*◌, ◌%◌, Bool, true, false, not, ◌&&◌, ◌||◌, List, [], ◌∷◌, ◌++◌, Option,
  none, some, Bytes, ◌==◌, nat_eq, ltb, leb, if◌then◌else◌, length, take, drop,
}

pub record ClientHello : Type 0 where
  pub version : ℕ
  pub cipher_suites : List ℕ
  pub extensions : List ℕ
  pub elliptic_curves : List ℕ
  pub ec_point_formats : Bytes
  pub signature_algos : List ℕ
  pub alpn_protocols : List Bytes
  pub supported_vers : List ℕ
  pub sni : Bytes

-- The errors of the parser; `bad_read` is the reader's.
pub data ParseError : Type 0 where
  bad_read not_handshake bad_record_length not_client_hello short_handshake short_version :
      ParseError
  short_random short_session_length short_session short_ciphers_length bad_ciphers : ParseError
  short_compression_length short_compression short_extensions extension_overruns : ParseError

abbrev pub empty_hello : ClientHello
empty_hello = record {
  version = 0;
  cipher_suites = [];
  extensions = [];
  elliptic_curves = [];
  ec_point_formats = [];
  signature_algos = [];
  alpn_protocols = [];
  supported_vers = [];
  sni = [];
}

-- `readUint16s`
unfoldable pub read_uint16s : Bytes → List ℕ
read_uint16s [] = []
read_uint16s (x ∷ []) = []
read_uint16s (x ∷ y ∷ b) = (x * 256 + y) ∷ read_uint16s b

-- The loop over the protocols of ALPN; a round takes a byte at least.
unfoldable pub alpn_names : ℕ → Bytes → List Bytes
alpn_names zero inner = []
alpn_names (suc fuel) [] = []
alpn_names (suc fuel) (n ∷ inner) =
    let rest = alpn_names fuel (drop n inner) in
    if ltb (length inner) n then [] else take n inner ∷ rest

-- The data after a length of one or two bytes, where they are all there.
abbrev pub prefixed8 : Bytes → Option Bytes
prefixed8 [] = none
prefixed8 (n ∷ rest) = if leb n (length rest) then some (take n rest) else none

abbrev pub prefixed16 : Bytes → Option Bytes
prefixed16 (x ∷ y ∷ rest) =
    let n = x * 256 + y in if leb n (length rest) then some (take n rest) else none
prefixed16 _ = none

-- The name of server_name: it stands after the list's length and the type.
abbrev pub server_name : Bytes → Option Bytes
server_name (a ∷ b ∷ c ∷ rest) = prefixed16 rest
server_name _ = none

abbrev or_old : Bytes → Option Bytes → Bytes
or_old old none = old
or_old old (some b) = b

abbrev numbers : List ℕ → Option Bytes → List ℕ
numbers old none = old
numbers old (some b) = read_uint16s b

abbrev even_numbers : List ℕ → Option Bytes → List ℕ
even_numbers old none = old
even_numbers old (some b) = if length b % 2 == 0 then read_uint16s b else old

abbrev appended : Bytes → Option Bytes → Bytes
appended old none = old
appended old (some b) = old ++ b

abbrev named : List Bytes → Option Bytes → List Bytes
named old none = old
named old (some b) = old ++ alpn_names (length b) b

-- One extension: its type is noted, and the data of the six known types is read.
unfoldable pub note_extension : ℕ → Bytes → ClientHello → ClientHello
note_extension t data_ ch = record {
  version = ch.version;
  cipher_suites = ch.cipher_suites;
  extensions = ch.extensions ++ t ∷ [];
  elliptic_curves =
      if t == 10 then numbers ch.elliptic_curves (prefixed16 data_) else ch.elliptic_curves;
  ec_point_formats =
      if t == 11 then appended ch.ec_point_formats (prefixed8 data_) else ch.ec_point_formats;
  signature_algos =
      if t == 13 then numbers ch.signature_algos (prefixed16 data_) else ch.signature_algos;
  alpn_protocols =
      if t == 16 then named ch.alpn_protocols (prefixed16 data_) else ch.alpn_protocols;
  supported_vers =
      if t == 43 then even_numbers ch.supported_vers (prefixed8 data_) else ch.supported_vers;
  sni = if t == 0 then or_old ch.sni (server_name data_) else ch.sni;
}

-- `parseExtensions`: the hello, and whether an extension overruns. Every round takes four bytes at
-- least, so the length of the bytes is fuel enough.
unfoldable pub parse_extensions : ℕ → Bytes → ClientHello → ClientHello × Option ParseError
parse_extensions (suc fuel) (a ∷ b ∷ c ∷ d ∷ rest) ch =
    let n = c * 256 + d in
    let onward =
      parse_extensions fuel (drop n rest) (note_extension (a * 256 + b) (take n rest) ch) in
    if ltb (length rest) n then (ch, some extension_overruns) else onward
parse_extensions _ _ ch = (ch, none)

-- What `ParseClientHello` returns, and what it leaves in the reader.
pub record Outcome : Type 0 where
  pub hello : Option ClientHello
  pub raw : Bytes
  pub error : Option ParseError
  pub left : Bytes

abbrev pub Parsed : Type 0
Parsed = Option ClientHello × Option ParseError

abbrev failed : ParseError → Parsed
failed e = (none, some e)

abbrev with_extensions : ClientHello → Bytes → Parsed
with_extensions ch b = let (ch', e) = parse_extensions (length b) b ch in (some ch', e)

-- From the extensions' length on; without one the hello is complete.
unfoldable pub parse_tail : ClientHello → Bytes → Parsed
parse_tail ch (x ∷ y ∷ rest) =
    let n = x * 256 + y in
    if ltb (length rest) n
    then (some ch, some short_extensions)
    else with_extensions ch (take n rest)
parse_tail ch _ = (some ch, none)

-- The compression methods.
unfoldable pub parse_compression : ClientHello → Bytes → Parsed
unfolding parse_tail
parse_compression ch [] = failed short_compression_length
parse_compression ch (n ∷ rest) =
    if ltb (length rest) n then failed short_compression else parse_tail ch (drop n rest)

abbrev pub hello_of : ℕ → List ℕ → ClientHello
hello_of version suites = record empty_hello { version = version; cipher_suites = suites }

-- The cipher suites.
unfoldable pub parse_ciphers : ℕ → Bytes → Parsed
unfolding parse_compression
parse_ciphers version (x ∷ y ∷ rest) =
    let n = x * 256 + y in
    if not (n % 2 == 0) || ltb (length rest) n
    then failed bad_ciphers
    else parse_compression (hello_of version (read_uint16s (take n rest))) (drop n rest)
parse_ciphers version _ = failed short_ciphers_length

-- The session id.
unfoldable pub parse_session : ℕ → Bytes → Parsed
unfolding parse_ciphers
parse_session version [] = failed short_session_length
parse_session version (n ∷ rest) =
    if ltb (length rest) n then failed short_session else parse_ciphers version (drop n rest)

-- The body of the handshake message: the version and the random bytes.
unfoldable pub parse_body : Bytes → Parsed
unfolding parse_session
parse_body (x ∷ y ∷ rest) =
    if ltb (length rest) 32 then failed short_random else parse_session (x * 256 + y) (drop 32 rest)
parse_body _ = failed short_version

-- The handshake message of a record.
unfoldable pub parse_message : Bytes → Parsed
unfolding parse_body
parse_message [] = failed short_handshake
parse_message (kind ∷ rest) =
    if not (kind == 1)
    then failed not_client_hello
    else if ltb (length rest) 3
    then failed short_handshake
    else parse_body (drop 3 rest)

abbrev parsed_record : Bytes → Bytes → Bytes → Outcome
parsed_record header payload left =
    let (hello, error) = parse_message payload in
    record { hello = hello; raw = header ++ payload; error = error; left = left }

-- A record that the reader does not hold in full is used up, and only its header is returned.
unfoldable pub parse_record : Bytes → ℕ → Bytes → Outcome
parse_record header n rest =
    if ltb (length rest) n
    then record { hello = none; raw = header; error = some bad_read; left = [] }
    else parsed_record header (take n rest) (drop n rest)

-- `ParseClientHello`
unfoldable pub parse_client_hello : Bytes → Outcome
unfolding parse_record
parse_client_hello (kind ∷ a ∷ b ∷ c ∷ d ∷ rest) =
    let header = kind ∷ a ∷ b ∷ c ∷ d ∷ [] in
    let n = c * 256 + d in
    if not (kind == 22)
    then record { hello = none; raw = header; error = some not_handshake; left = rest }
    else if ltb n 4 || ltb 65535 n
    then record { hello = none; raw = header; error = some bad_record_length; left = rest }
    else parse_record header n rest
parse_client_hello _ = record { hello = none; raw = []; error = some bad_read; left = [] }
