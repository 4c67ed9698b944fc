-- ===== src/Detector/Scorer/Toolchain.antt =====
-- internal/detector/scorer_toolchain.go: markers of attack tools, in one request and in a history.
use veilgate.Prelude.{
  ℕ, ◌+◌, Bool, true, false, not, ◌&&◌, ◌||◌, none, some, List, [], ◌∷◌, ◌++◌, Bytes, codes, ltb,
  leb, ◌==◌, nat_eq, bytes_eq, if◌then◌else◌, is_empty, contains, to_lower, any, map, length,
  decimal, equal_fold,
}
use veilgate.Http.{Request, header_get}
use veilgate.Detector.Tracker.{ClientEvent}
use veilgate.Detector.Scorer.{
  Signal, signal, no_signal, DetectorRules, ToolchainRules, Markers, Hit, first_tier, first_marker,
  distinct, arrow,
}

-- One of the markers is found in one of the events; the markers are compared as they are.
abbrev saw : List Bytes → List ClientEvent → Bool
saw markers events =
    any (λ (e : ClientEvent). any (λ m. contains (to_lower (e.path ++ (b'?' ∷ e.query))) m) markers)
      events

abbrev one_if : Bool → ℕ
one_if b = if b then 1 else 0

-- `scoreToolchain`
unfoldable pub score_toolchain : ToolchainRules → List ClientEvent → Signal
score_toolchain tc events =
    let stages =
      one_if (saw tc.recon_paths events)
      + (one_if (saw tc.probe_paths events) + one_if (saw tc.exploit_markers events)) in
    if ltb (length events) 4
    then no_signal
    else if stages == 3
    then signal (codes "toolchain_full") tc.full (codes "observed recon + probe + exploit sequence")
    else if stages == 2
    then signal (codes "toolchain_partial") tc.partial (codes "observed two pentest stages")
    else no_signal

-- The stages of the events in order, less the empty ones and those that repeat the last one.
unfoldable pub stages_after : Bytes → List ClientEvent → List Bytes
stages_after last [] = []
stages_after last (e ∷ es) =
    let skipped = is_empty e.tool_stage || last == e.tool_stage in
    let rest = stages_after (if skipped then last else e.tool_stage) es in
    if skipped then rest else e.tool_stage ∷ rest

-- The loop with `idx`: the stages hold those wanted, in order.
unfoldable pub follows : List Bytes → List Bytes → Bool
follows [] seq = true
follows (w ∷ want) [] = false
follows (w ∷ want) (st ∷ seq) = follows (if st == w then want else w ∷ want) seq

-- The loop over neighbours.
unfoldable pub neighbours : List Bytes → Signal
neighbours [] = no_signal
neighbours (a ∷ []) = no_signal
neighbours (a ∷ b ∷ seq) =
    let rest = neighbours (b ∷ seq) in
    if a == codes "recon" && b == codes "probe"
    then signal (codes "toolchain_hmm_partial") 8
        (codes "observed ordered recon" ++ (arrow ++ codes "probe pattern"))
    else if a == codes "probe" && b == codes "exploit"
    then signal (codes "toolchain_hmm_partial") 12
        (codes "observed ordered probe" ++ (arrow ++ codes "exploit pattern"))
    else rest

abbrev pub pipeline : List Bytes
pipeline = codes "recon" ∷ codes "probe" ∷ codes "exploit" ∷ []

-- `scoreToolchainHMM`
unfoldable pub score_toolchain_hmm : List ClientEvent → Signal
score_toolchain_hmm events =
    let seq = stages_after [] events in
    if ltb (length events) 5
    then no_signal
    else if ltb (length seq) 2
    then no_signal
    else if follows pipeline seq
    then signal (codes "toolchain_hmm") 20 (
        codes "observed ordered recon"
        ++ (arrow ++ (codes "probe" ++ (arrow ++ codes "exploit pattern across visits"))))
    else neighbours seq

-- `scorePathBruteforce`
unfoldable pub score_path_bruteforce : DetectorRules → List ClientEvent → Signal
score_path_bruteforce rules events =
    let n = distinct (map (λ (e : ClientEvent). e.path) events) in
    if ltb (length events) 2 then no_signal else elim (first_tier rules.path_bruteforce n) [
      | none ↦ no_signal
      | some tier ↦ signal (codes "path_bruteforce") tier.points (
          codes "client hit "
          ++ (decimal n ++ codes " distinct paths inside the window (wordlist bruteforce)"))
    ]

abbrev marked : Bytes → Bytes → Markers → List Bytes → Signal
marked name reason cfg places =
    if cfg.points == 0 then no_signal else elim (first_marker cfg.substrings places) [
      | none ↦ no_signal
      | some sub ↦ signal name cfg.points (reason ++ sub)
    ]

-- `scoreWordlistPath`
unfoldable pub score_wordlist_path : DetectorRules → Request → Signal
score_wordlist_path rules r =
    marked (codes "wordlist_path") (codes "path matches known scanner wordlist entry: ")
      rules.wordlist_paths (to_lower r.path ∷ [])

abbrev header_texts : Request → List Bytes
header_texts r = map (λ (h : Bytes × Bytes). to_lower h.1) r.headers

-- The body where its length is given and at most 64 KB.
unfoldable pub small_body : Request → List Bytes
small_body r = elim r.body [
  | none ↦ []
  | some body ↦ elim r.content_length [
    | none ↦ []
    | some n ↦ if leb n 65536 && not (is_empty body) then to_lower body ∷ [] else []
  ]
]

unfoldable pub chosen_headers : Hit → List Bytes → List Bytes
chosen_headers hit [] = []
chosen_headers hit (h ∷ hs) =
    let rest = chosen_headers hit hs in
    let v = header_get h hit.request in if is_empty v then rest else to_lower v ∷ rest

-- What `scoreInjection` looks through.
unfoldable pub haystacks : Markers → Hit → List Bytes
haystacks cfg hit =
    (to_lower hit.request.path ∷ to_lower hit.raw_query ∷ [])
    ++ (small_body hit.request
        ++ (if is_empty cfg.headers
            then header_texts hit.request
            else chosen_headers hit cfg.headers
              ++ (if any (λ h. equal_fold h (codes "Host")) cfg.headers && not (is_empty hit.host)
                  then to_lower hit.host ∷ []
                  else [])))

-- `scoreInjection`
unfoldable pub score_injection : DetectorRules → Hit → Signal
score_injection rules hit =
    marked (codes "injection_marker") (codes "request contains attack payload marker: ")
      rules.injection_markers (haystacks rules.injection_markers hit)

-- `scoreOOB`
unfoldable pub score_oob : DetectorRules → Hit → Signal
score_oob rules hit =
    marked (codes "oob_interaction") (codes "request references OOB callback host: ")
      rules.oob_interaction
      ((to_lower hit.request.path ∷ to_lower hit.raw_query ∷ to_lower hit.host ∷ [])
        ++ header_texts hit.request)

-- `classifyToolStage`
unfoldable pub classify_tool_stage : ToolchainRules → Hit → Bytes
classify_tool_stage tc hit =
    let hay = to_lower (hit.request.path ++ (b'?' ∷ hit.raw_query)) ∷ [] in
    elim (first_marker tc.exploit_markers hay) [
      | some _ ↦ codes "exploit"
      | none ↦ elim (first_marker tc.probe_paths hay) [
        | some _ ↦ codes "probe"
        | none ↦ elim (first_marker tc.recon_paths hay) [ some _ ↦ codes "recon" | none ↦ [] ]
      ]
    ]
