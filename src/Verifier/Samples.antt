-- ===== src/Verifier/Samples.antt =====
-- Runs of the verifiers on a small disk, and the theorems at these.
use veilgate.Prelude.{
  runs, ◌≡◌, ◌↔◌, ◌⊎◌, refl, true, false, List, [], ◌∷◌, Option, none, some, Bytes, codes, ◌==◌,
  bytes_eq, if◌then◌else◌, trim, trim_left, trim_right, parse_int64, parse_uint, digits_value,
  hex_decode,
}
use veilgate.Http.{Request, header_get, header_values}
use veilgate.Verifier.{no_result, Verifier, verify_all}
use veilgate.Verifier.Order.{Accepted, Declines, verify_all-first}
use veilgate.Verifier.Disk.{Entry, Disk, Crypto}
use veilgate.Verifier.Hmac.{
  HmacConfig, valid_client_name, load_secret, parse_sig_header, scan_parts, read_capped_body,
  verify_signature, hmac_verify,
}
use veilgate.Verifier.Hmac.Secrets.{History}
use veilgate.Verifier.Hmac.Signed.{Signed, hmac_verify_iff, hmac_verify-cuts}
use veilgate.Verifier.Tokens.{TokenStore, reload, fill, token_of, file_ext, trim_suffix}
use veilgate.Verifier.Bearer.{BearerConfig, bearer_verify, bearer_verifier}
use veilgate.Verifier.Bearer.Access.{bearer_verify-overwritten}

-- Hashes that tell their input.
abbrev crypto : Crypto
crypto = record { sha256 = λ s. s; hmac_sha256 = λ key text. key }

abbrev contents : Bytes → Option Bytes
contents file =
    if file == codes "pay.secret"
    then some (codes "k\n")
    else if file == codes "pay.token"
    then some (codes " tok ")
    else none

abbrev disk : Disk
disk = record {
  stat_dir = λ dir. some 7;
  read_dir = λ dir. some (
      record { name = codes "pay.token"; is_dir = false }
      ∷ record { name = codes ".swap"; is_dir = false }
      ∷ []);
  stat = λ dir file. some 7;
  read_file = λ dir file. contents file;
}

-- The same times, and other contents.
abbrev emptied : Disk
emptied = record disk { read_file = λ dir file. none }

abbrev cfg : HmacConfig
cfg = record {
  header_signature = codes "X-Veilgate-Signature";
  header_client = codes "X-Veilgate-Client";
  clock_skew_sec = 300;
  max_body_bytes = 2;
  clients_dir = codes "clients";
}

abbrev signed : Request
signed = record {
  method = codes "POST";
  path = codes "/hook";
  remote_addr = codes "10.0.0.1:5000";
  proto_major = 1;
  proto_minor = 1;
  headers =
      (codes "X-Veilgate-Signature", codes "t=1000, v1=6b")
      ∷ (codes "X-Veilgate-Client", codes "pay")
      ∷ (codes "Authorization", codes "bearer  tok")
      ∷ [];
  transfer_encoding = [];
  content_length = some 3;
  body = some (codes "abc");
}

accepted : (hmac_verify crypto disk 1200 cfg [] signed).result.accepted ≡ true
unfolding runs header_get header_values trim trim_left trim_right hmac_verify valid_client_name
    parse_sig_header scan_parts parse_int64 parse_uint digits_value verify_signature load_secret
    read_capped_body hex_decode
accepted = refl

too_late : (hmac_verify crypto disk 1301 cfg [] signed).result.accepted ≡ false
unfolding runs header_get header_values trim trim_left trim_right hmac_verify valid_client_name
    parse_sig_header scan_parts parse_int64 parse_uint digits_value
too_late = refl

hmac_verify_iff_example :
    ((hmac_verify crypto disk 1200 cfg [] signed).result.accepted ≡ true)
    ↔ Signed crypto disk 1200 cfg [] signed
hmac_verify_iff_example = hmac_verify_iff crypto disk 1200 cfg [] signed

hmac_verify-cuts_example :
    (hmac_verify crypto disk 1200 cfg [] signed).request.body ≡ some (codes "ab")
hmac_verify-cuts_example = hmac_verify-cuts crypto disk 1200 cfg [] signed accepted

-- What the files held at every time.
abbrev history : History
history file mtime = elim (contents file) [ none ↦ [] | some b ↦ b ]

abbrev store : TokenStore
store = record { dir_mod = 7; tokens = (codes "tok", codes "pay") ∷ [] }

loaded : reload crypto disk (codes "tokens") ≡ some store
unfolding runs trim trim_left trim_right reload fill token_of file_ext trim_suffix valid_client_name
loaded = refl

abbrev entries : List Entry
entries =
    record { name = codes "pay.token"; is_dir = false }
    ∷ record { name = codes ".swap"; is_dir = false }
    ∷ []

abbrev bearer_cfg : BearerConfig
bearer_cfg = record {
  header = codes "Authorization";
  scheme = codes "Bearer";
  tokens_dir = codes "tokens";
}

bearer_verify-overwritten_example :
    bearer_verify crypto emptied bearer_cfg (codes "Bearer ") store signed
    ≡ bearer_verify crypto disk bearer_cfg (codes "Bearer ") store signed
bearer_verify-overwritten_example =
    bearer_verify-overwritten crypto disk emptied bearer_cfg (codes "Bearer ") store signed loaded
      refl

abbrev chain : List (Verifier TokenStore)
unfolding bearer_verifier
chain =
    bearer_verifier crypto disk bearer_cfg (codes "Token ")
    ∷ bearer_verifier crypto disk bearer_cfg (codes "Bearer ")
    ∷ []

verify_all-first_example :
    Accepted chain store signed (verify_all chain store signed)
    ⊎ (Declines chain store signed
          (verify_all chain store signed).state
          (verify_all chain store signed).request
        × ((verify_all chain store signed).result ≡ no_result))
verify_all-first_example = verify_all-first chain store signed
