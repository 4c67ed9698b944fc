-- ===== src/Proxy/ClientIp.antt =====
-- internal/proxy/proxy.go: `resolveClientIP`, which names the client that a request is scored as.
-- The parser of addresses and the test of the operator's networks (package net) are parameters.
use veilgate.Prelude.{
  ℕ, ◌≡◌, refl, ap, ◌∙◌, ◌⊎◌, inl, inr, arith, Bool, true, false, not, ◌||◌, List, [], ◌∷◌, ◌++◌,
  Option, none, some, Bytes, codes, is_empty, if◌then◌else◌, any, split, trim_space, Bool-cases,
  All, All-append, append_assoc,
}
use mathlib.Core.List.{reverse, reverse-append, reverse-cons, Memᴰ}
use veilgate.Http.{Request, header_get, header_values}

-- `net.SplitHostPort` (its host), `net.ParseIP` and `(*IPNet).Contains`.
pub record Addresses : Type 1 where
  pub Ip : Type 0
  pub Net : Type 0
  pub split_host_port : Bytes → Option Bytes
  pub parse_ip : Bytes → Option Ip
  pub contains_ip : Net → Ip → Bool

abbrev pub comma : ℕ
comma = b','

abbrev pub forwarded_for : Bytes
forwarded_for = codes "X-Forwarded-For"

All-reverse {ℓ κ} : {A : Type ℓ} (P : A → Type κ) (xs : List A) → All P xs → All P (reverse xs)
All-reverse P [] h = tt
All-reverse P (x ∷ xs) h =
    rw (reverse-cons x xs) (All-append P (reverse xs) (x ∷ []) (All-reverse P xs h.1) (h.0, tt))

module _ (a : Addresses) where
  open a use {Ip, Net, split_host_port, parse_ip, contains_ip}

  unfoldable pub ip_in_any : List Net → Ip → Bool
  ip_in_any nets ip = any (λ n. contains_ip n ip) nets

  unfoldable pub peer_host : Request → Bytes
  peer_host r = elim (split_host_port r.remote_addr) [ none ↦ r.remote_addr | some host ↦ host ]

  -- A hop that the walk returns: an address that is no trusted proxy.
  unfoldable pub is_client : List Net → Bytes → Bool
  unfolding ip_in_any
  is_client nets hop = elim (parse_ip (trim_space hop)) [
    | none ↦ false
    | some ip ↦ not (ip_in_any nets ip)
  ]

  -- The walk over the hops, given from right to left.
  unfoldable pub walk : List Net → Bytes → List Bytes → Bytes
  unfolding is_client
  walk nets host [] = host
  walk nets host (hop ∷ hops) =
      let rest = walk nets host hops in if is_client nets hop then trim_space hop else rest

  unfoldable pub is_trusted_peer : List Net → Bytes → Bool
  unfolding ip_in_any
  is_trusted_peer nets host = elim (parse_ip (trim_space host)) [
    | none ↦ false
    | some ip ↦ ip_in_any nets ip
  ]

  unfoldable pub resolve_client_ip : Request → List Net → Bytes
  unfolding peer_host is_trusted_peer walk
  resolve_client_ip r nets =
      let host = peer_host r in
      let xff = header_get forwarded_for r in
      if is_empty nets || not (is_trusted_peer nets host) || is_empty xff
      then host
      else walk nets host (reverse (split comma xff))

  -- The header is not read unless the connection comes from a trusted proxy: a client cannot name
  -- itself. In particular with no trusted proxies the name is the peer's.
  pub resolve_client_ip-peer :
      (r : Request) (nets : List Net)
      → is_trusted_peer nets (peer_host r) ≡ false
      → resolve_client_ip r nets ≡ peer_host r
  unfolding resolve_client_ip
  resolve_client_ip-peer r nets h = ground arith

  trusted-nonempty : (r : Request) → is_trusted_peer [] (peer_host r) ≡ true → ⊥
  unfolding is_trusted_peer
  trusted-nonempty r h = ground arith

  walk-first :
      (nets : List Net) (host : Bytes) (pre : List Bytes) (hop : Bytes) (post : List Bytes)
      → All (λ h. is_client nets h ≡ false) pre
      → is_client nets hop ≡ true
      → walk nets host (pre ++ hop ∷ post) ≡ trim_space hop
  unfolding walk
  walk-first nets host [] hop post skip h = rw h
  walk-first nets host (p ∷ pre) hop post skip h =
      rw skip.0 (walk-first nets host pre hop post skip.1 h)

  walk-found :
      (nets : List Net) (host : Bytes) (hops : List Bytes)
      → (walk nets host hops ≡ host)
        ⊎ ((hop : Bytes) × Memᴰ hop hops
            × (is_client nets hop ≡ true)
            × (walk nets host hops ≡ trim_space hop))
  unfolding walk
  walk-found nets host [] = inl refl
  walk-found nets host (p ∷ hops) = elim (Bool-cases (is_client nets p)) [
    | inl h ↦ inr (p, Memᴰ.head refl, h, rw h)
    | inr h ↦ elim (walk-found nets host hops) [
      | inl e ↦ inl (rw h e)
      | inr (hop, m, c, e) ↦ inr (hop, Memᴰ.tail m, c, rw h e)
    ]
  ]

  rightmost_hop :
      (r : Request) (nets : List Net) (pre : List Bytes) (hop : Bytes) (post : List Bytes)
      → is_trusted_peer nets (peer_host r) ≡ true
      → is_empty (header_get forwarded_for r) ≡ false
      → split comma (header_get forwarded_for r) ≡ pre ++ hop ∷ post
      → is_client nets hop ≡ true
      → All (λ h. is_client nets h ≡ false) post
      → resolve_client_ip r nets ≡ trim_space hop
  unfolding resolve_client_ip
  rightmost_hop r [] pre hop post t x e c skip = absurd (trusted-nonempty r t)
  rightmost_hop r (n ∷ nets) pre hop post t x e c skip =
      rw (t, x, e, reverse-append pre (hop ∷ post), reverse-cons hop post)
        (rw (append_assoc (reverse post) (hop ∷ []) (reverse pre)) (
          walk-first (n ∷ nets) (peer_host r) (reverse post) hop (reverse pre)
            (All-reverse _ post skip) c))

  -- Behind a trusted proxy the client is the right-most hop of the first X-Forwarded-For line that is
  -- an address outside the trusted networks: the hops right of it in that line are junk or trusted
  -- proxies, those left of it, which the client may have written itself, do not matter, and neither do
  -- further lines.
  pub resolve_client_ip-rightmost :
      (r : Request) (nets : List Net) (line : Bytes) (lines : List Bytes)
      → (pre : List Bytes) (hop : Bytes) (post : List Bytes)
      → is_trusted_peer nets (peer_host r) ≡ true
      → header_values forwarded_for r.headers ≡ line ∷ lines
      → is_empty line ≡ false
      → split comma line ≡ pre ++ hop ∷ post
      → is_client nets hop ≡ true
      → All (λ h. is_client nets h ≡ false) post
      → resolve_client_ip r nets ≡ trim_space hop
  resolve_client_ip-rightmost r nets line lines pre hop post t v x e c skip =
      let first : header_get forwarded_for r ≡ line = unfold header_get in rw (v, header_get) in
      rightmost_hop r nets pre hop post t (ap is_empty first ∙ x) (ap (split comma) first ∙ e) c
        skip

  -- The name is the peer's, or a hop of the header that reads as an address outside the trusted
  -- networks. Text that is no address never becomes the name of a client.
  pub resolve_client_ip_sound :
      (r : Request) (nets : List Net)
      → (resolve_client_ip r nets ≡ peer_host r)
        ⊎ ((hop : Bytes) × Memᴰ hop (reverse (split comma (header_get forwarded_for r)))
            × (is_client nets hop ≡ true)
            × (resolve_client_ip r nets ≡ trim_space hop))
  unfolding resolve_client_ip
  resolve_client_ip_sound r nets =
      elim (Bool-cases (
        is_empty nets
        || not (is_trusted_peer nets (peer_host r))
        || is_empty (header_get forwarded_for r))) [
          | inl h ↦ rw h (inl refl)
          | inr h ↦
              rw h
                (walk-found nets (peer_host r) (reverse (split comma (header_get forwarded_for r))))
        ]
