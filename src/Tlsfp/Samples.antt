-- ===== src/Tlsfp/Samples.antt =====
-- Runs of the parser, and the theorems at these.
use veilgate.Prelude.{◌≡◌, ◌⊎◌, refl, arith, List, [], ◌∷◌, ◌++◌, some, codes, replicate}
use veilgate.Tlsfp.Parser.{
  bad_read, empty_hello, note_extension, parse_message, parse_client_hello, alpn_names,
  read_uint16s,
}
use veilgate.Tlsfp.Parser.Extensions.{Extension, noted}
use veilgate.Tlsfp.Parser.Hello.{Hello, message_wire, hello_parsed, parse_message-wire}
use veilgate.Tlsfp.Store.{
  StoreCall, put_call, new_store, get_fingerprint, collect_expired, store_calls,
  collect_expired-unseen,
}
use veilgate.Tlsfp.Parser.Replay.{parse_client_hello-replay}

abbrev extensions : List Extension
extensions =
    record { kind = 16; content = 0 ∷ 3 ∷ 2 ∷ codes "h2" }
    ∷ record { kind = 43; content = 4 ∷ 3 ∷ 4 ∷ 3 ∷ 3 ∷ [] }
    ∷ record { kind = 6682; content = [] }
    ∷ []

abbrev hello : Hello
hello = record {
  version = 771;
  random = replicate 32 7;
  session = 1 ∷ 2 ∷ [];
  suites = 4865 ∷ 4866 ∷ [];
  compression = 0 ∷ [];
  extensions = extensions;
}

names : (noted extensions empty_hello).alpn_protocols ≡ codes "h2" ∷ []
unfolding note_extension alpn_names
names = refl

versions : (noted extensions empty_hello).supported_vers ≡ 772 ∷ 771 ∷ []
unfolding note_extension read_uint16s
versions = refl

parse_message-wire_example : parse_message (message_wire hello 0 0 90) ≡ hello_parsed hello
parse_message-wire_example = parse_message-wire hello 0 0 90 refl

-- A record of an alert is not the parser's.
parse_client_hello-replay_example :
    ((parse_client_hello (21 ∷ 3 ∷ 3 ∷ 0 ∷ 2 ∷ 2 ∷ 40 ∷ [])).error ≡ some bad_read)
    ⊎ ((parse_client_hello (21 ∷ 3 ∷ 3 ∷ 0 ∷ 2 ∷ 2 ∷ 40 ∷ [])).raw
          ++ (parse_client_hello (21 ∷ 3 ∷ 3 ∷ 0 ∷ 2 ∷ 2 ∷ 40 ∷ [])).left
        ≡ 21 ∷ 3 ∷ 3 ∷ 0 ∷ 2 ∷ 2 ∷ 40 ∷ [])
parse_client_hello-replay_example = parse_client_hello-replay (21 ∷ 3 ∷ 3 ∷ 0 ∷ 2 ∷ 2 ∷ 40 ∷ [])

abbrev calls : List StoreCall
calls = put_call 10 (codes "10.0.0.1:5000") (record { ja3 = []; ja4 = codes "t13"; sni = [] }) ∷ []

collect_expired-unseen_example :
    get_fingerprint 30
      (codes "10.0.0.1:5000")
      (collect_expired 25 (store_calls calls (new_store 20)))
    ≡ get_fingerprint 30 (codes "10.0.0.1:5000") (store_calls calls (new_store 20))
collect_expired-unseen_example =
    collect_expired-unseen 20 calls 25 30 (codes "10.0.0.1:5000") (omega arith)
