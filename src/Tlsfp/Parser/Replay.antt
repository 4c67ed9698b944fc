-- ===== src/Tlsfp/Parser/Replay.antt =====
-- internal/tlsfp/parser.go: what the caller can replay to the TLS stack.
use veilgate.Prelude.{
  ◌*◌, ◌+◌, ◌≡◌, ◌⊎◌, inl, refl, arith, [], ◌∷◌, ◌++◌, some, Bytes, take-append-drop,
}
use veilgate.Tlsfp.Parser.{bad_read, parse_record, parse_client_hello}

-- Unless the reader ends inside the record, the bytes that are returned and those left in the
-- reader are the bytes that it held, in order: with or without an error nothing is lost.
pub parse_client_hello-replay :
    (input : Bytes)
    → ((parse_client_hello input).error ≡ some bad_read)
      ⊎ ((parse_client_hello input).raw ++ (parse_client_hello input).left ≡ input)
unfolding parse_client_hello parse_record
parse_client_hello-replay (kind ∷ a ∷ b ∷ c ∷ d ∷ rest) =
    ground (arith, take-append-drop (c * 256 + d) rest)
parse_client_hello-replay [] = inl refl
parse_client_hello-replay (kind ∷ []) = inl refl
parse_client_hello-replay (kind ∷ a ∷ []) = inl refl
parse_client_hello-replay (kind ∷ a ∷ b ∷ []) = inl refl
parse_client_hello-replay (kind ∷ a ∷ b ∷ c ∷ []) = inl refl
