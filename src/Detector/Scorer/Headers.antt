-- ===== src/Detector/Scorer/Headers.antt =====
-- internal/detector/scorer_headers.go: signals of one request's headers.
use veilgate.Prelude.{
  ℕ, ◌+◌, ◌-◌, ◌*◌, ◌/◌, ◌%◌, not, ◌&&◌, ◌||◌, Option, none, some, List, [], ◌∷◌, ◌++◌, Bytes,
  codes, ltb, leb, ◌==◌, nat_eq, bytes_eq, if◌then◌else◌, is_empty, contains, to_lower, filter,
  length, zero, suc,
}
use veilgate.Http.{Request, header_get}
use veilgate.Detector.Scorer.{
  Signal, signal, no_signal, DetectorRules, first_tier, first_marker, user_agent,
  looks_like_browser_ua,
}

abbrev pub present : Request → List Bytes → ℕ
present r names = length (filter (λ h. not (is_empty (header_get h r))) names)

-- `scoreHeaders`
unfoldable pub score_headers : DetectorRules → Request → Signal
score_headers rules r =
    let here = present r rules.browser_hints in
    let missing = length rules.browser_hints - here in
    if ltb 0 here && looks_like_browser_ua (user_agent r)
    then no_signal
    else elim (first_tier rules.browser_tiers missing) [
      | none ↦ no_signal
      | some tier ↦ signal (codes "sparse_headers") tier.points (
          if leb 3 tier.at
          then codes "client sent few browser-typical headers"
          else codes "client missing some browser headers")
    ]

-- `scoreUserAgent`
unfoldable pub score_user_agent : DetectorRules → Request → Signal
score_user_agent rules r =
    let ua = to_lower (user_agent r) in
    if is_empty ua
    then signal (codes "empty_ua") rules.empty_user_agent (codes "no User-Agent")
    else elim (first_marker rules.suspicious_user_agents.substrings (ua ∷ [])) [
      | none ↦ no_signal
      | some sub ↦
          signal (codes "suspicious_ua") rules.suspicious_user_agents.points
            (codes "user-agent matches known tool/library: " ++ sub)
    ]

-- `scoreSecFetch`
unfoldable pub score_sec_fetch : Request → Signal
score_sec_fetch r =
    let here =
      present r (codes "Sec-Fetch-Site" ∷ codes "Sec-Fetch-Mode" ∷ codes "Sec-Fetch-Dest" ∷ []) in
    if here == 3
    then no_signal
    else if r.method == codes "GET"
        && (not (is_empty (header_get (codes "Referer") r)) && ltb 0 here)
    then no_signal
    else if not (looks_like_browser_ua (user_agent r))
    then no_signal
    else if here == 0
    then signal (codes "sec_fetch_absent") 12
        (codes "claimed browser UA but no Sec-Fetch-* headers present")
    else signal (codes "sec_fetch_partial") 6
        (codes "claimed browser UA but Sec-Fetch-* headers are incomplete")

-- `scoreAcceptEncoding`
unfoldable pub score_accept_encoding : Request → Signal
score_accept_encoding r =
    let v = to_lower (header_get (codes "Accept-Encoding") r) in
    if not (looks_like_browser_ua (user_agent r))
    then no_signal
    else if is_empty v
    then signal (codes "ae_browser_empty") 12
        (codes "browser-shaped UA but Accept-Encoding is empty")
    else if not (contains v (codes "br"))
    then signal (codes "ae_browser_no_br") 8
        (codes "browser-shaped UA but Accept-Encoding is missing brotli")
    else no_signal

-- `scoreH3Mismatch`
unfoldable pub score_h3_mismatch : Request → Signal
score_h3_mismatch r =
    if not (header_get (codes "X-Veilgate-H3-Mismatch") r == codes "1")
    then no_signal
    else if not (looks_like_browser_ua (user_agent r))
    then no_signal
    else signal (codes "h3_mismatch") 8
        (codes "claimed browser UA but stayed on H1/H2 across multiple Alt-Svc hints")

-- What a fingerprint database answers: label, category and confidence.
abbrev pub Classified : Type 0
Classified = Bytes × Bytes × ℕ

-- `scoreH2`, given what the classifier answers, `none` for no match.
unfoldable pub score_h2 : Option Classified → Signal
score_h2 none = no_signal
score_h2 (some (label, category, conf)) =
    if category == codes "agent" || category == codes "scanner"
    then signal (codes "h2_agent") (if ltb conf 80 then 22 else 35)
        (codes "HTTP/2 SETTINGS match known agent library: " ++ label)
    else if category == codes "bot"
    then signal (codes "h2_bot") 18 (codes "HTTP/2 SETTINGS match known bot: " ++ label)
    else if category == codes "unknown"
    then signal (codes "h2_non_browser") 15
        (codes "HTTP/2 SETTINGS look library-shaped (no browser match)")
    else no_signal

-- The mask: bit i for the i-th name that is present.
unfoldable pub mask_of : Request → List Bytes → ℕ → ℕ
mask_of r [] bit = 0
mask_of r (h ∷ hs) bit = mask_of r hs (bit * 2) + (if is_empty (header_get h r) then 0 else bit)

abbrev hex_byte : ℕ → ℕ
hex_byte n = if ltb n 10 then b'0' + n else b'a' + (n - 10)

-- The last digits of a number at base sixteen, with zeros in front.
unfoldable pub hex_fixed : ℕ → ℕ → Bytes
hex_fixed zero n = []
hex_fixed (suc k) n = hex_fixed k (n / 16) ++ (hex_byte (n % 16) ∷ [])

-- `headerBitmap`
unfoldable pub header_bitmap : Request → Bytes
header_bitmap r = hex_fixed 8 (
    mask_of r
      (codes "Accept"
        ∷ codes "Accept-Language"
        ∷ codes "Accept-Encoding"
        ∷ codes "Sec-Fetch-Site"
        ∷ codes "Sec-Fetch-Mode"
        ∷ codes "Sec-Fetch-Dest"
        ∷ codes "Sec-Ch-Ua"
        ∷ codes "Sec-Ch-Ua-Mobile"
        ∷ codes "Sec-Ch-Ua-Platform"
        ∷ codes "Upgrade-Insecure-Requests"
        ∷ codes "Referer"
        ∷ codes "Cookie"
        ∷ codes "Cache-Control"
        ∷ codes "Connection"
        ∷ codes "Pragma"
        ∷ [])
      1)

-- `mutationBitmap`
unfoldable pub mutation_bitmap : Request → Bytes
mutation_bitmap r = hex_fixed 2 (
    mask_of r
      (codes "Accept-Language"
        ∷ codes "Accept-Encoding"
        ∷ codes "Sec-Ch-Ua"
        ∷ codes "Sec-Ch-Ua-Mobile"
        ∷ codes "Sec-Ch-Ua-Platform"
        ∷ [])
      1)
