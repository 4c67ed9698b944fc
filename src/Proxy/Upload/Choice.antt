-- ===== src/Proxy/Upload/Choice.antt =====
-- internal/proxy/upload.go: which policy `matchUploadPolicy` chooses.
use veilgate.Prelude.{
  ℕ, suc, ◌≤◌, ◌<◌, ◌≡◌, ◌⊎◌, inl, inr, refl, sym, ap, ◌∙◌, arith, List, [], ◌∷◌, ◌++◌, Option,
  none, some, Bytes, All, Bool-cases, Option-cases, ltb, ltb→lt,
}
use veilgate.Proxy.Upload.{
  UploadPolicy, Best, better, upload_path_matches, scan_patterns, scan_policies,
  match_upload_policy,
}

-- The patterns that match the path, policy by policy and in the order of the configuration.
abbrev hits_of : ℕ → UploadPolicy → Bytes → List Bytes → List Best
hits_of i p path [] = []
hits_of i p path (pattern ∷ patterns) = elim (upload_path_matches pattern path) [
  | none ↦ hits_of i p path patterns
  | some s ↦ record { policy = p; position = i; specificity = s } ∷ hits_of i p path patterns
]

abbrev pub hits : ℕ → List UploadPolicy → Bytes → List Best
hits i [] path = []
hits i (p ∷ ps) path = hits_of i p path p.paths ++ hits (suc i) ps path

-- The most specific of the list, and of several as specific the first.
pub data FirstBest (c : Best) : List Best → Type 0 where
  here :
      {h : Best} {hs : List Best}
      → h ≡ c
      → All (λ o. o.specificity ≤ c.specificity) hs
      → FirstBest c (h ∷ hs)
  later :
      {h : Best} {hs : List Best}
      → h.specificity < c.specificity
      → FirstBest c hs
      → FirstBest c (h ∷ hs)

pick : List Best → Option Best → Option Best
pick [] b = b
pick (h ∷ hs) b = pick hs (better b h)

pick-append : (hs ks : List Best) (b : Option Best) → pick (hs ++ ks) b ≡ pick ks (pick hs b)
unfolding pick
pick-append [] ks b = refl
pick-append (h ∷ hs) ks b = pick-append hs ks (better b h)

scan_patterns-pick :
    (i : ℕ) (p : UploadPolicy) (path : Bytes) (patterns : List Bytes) (b : Option Best)
    → scan_patterns i p path patterns b ≡ pick (hits_of i p path patterns) b
unfolding scan_patterns pick
scan_patterns-pick i p path [] b = refl
scan_patterns-pick i p path (pattern ∷ patterns) b =
    elim (Option-cases (upload_path_matches pattern path)) [
      | inl e ↦ rw (e, hits_of, scan_patterns) (scan_patterns-pick i p path patterns b)
      | inr (s, e) ↦
          rw (e, hits_of, scan_patterns)
            (scan_patterns-pick i p path patterns
              (better b (record { policy = p; position = i; specificity = s })))
    ]

scan_policies-pick :
    (i : ℕ) (path : Bytes) (ps : List UploadPolicy) (b : Option Best)
    → scan_policies i path ps b ≡ pick (hits i ps path) b
unfolding scan_policies
scan_policies-pick i path [] b = unfold pick in refl
scan_policies-pick i path (p ∷ ps) b =
    scan_policies-pick (suc i) path ps (scan_patterns i p path p.paths b)
    ∙ ap (pick (hits (suc i) ps path)) (scan_patterns-pick i p path p.paths b)
    ∙ sym (pick-append (hits_of i p path p.paths) (hits (suc i) ps path) b)

FirstBest-least :
    {c h : Best} {hs : List Best} → FirstBest c (h ∷ hs) → h.specificity ≤ c.specificity
FirstBest-least (here e a) = ground arith
FirstBest-least (later lt f) = omega arith

-- An entry that is no better than the first one may stand behind it.
FirstBest-insert :
    {c b : Best} {hs : List Best} (h : Best)
    → h.specificity ≤ b.specificity
    → FirstBest c (b ∷ hs)
    → FirstBest c (b ∷ h ∷ hs)
FirstBest-insert h le (here e a) = here e (ground arith, a)
FirstBest-insert h le (later lt f) = later lt (later (omega arith) f)

pick-FirstBest :
    (hs : List Best) (b : Best) → (c : Best) × (pick hs (some b) ≡ some c) × FirstBest c (b ∷ hs)
unfolding pick
pick-FirstBest [] b = (b, refl, here refl tt)
pick-FirstBest (h ∷ hs) b = elim (Bool-cases (ltb b.specificity h.specificity)) [
  | inl lt ↦
      let (c, e, f) = pick-FirstBest hs h in
      (
        c,
        rw lt e,
        later (omega (arith, FirstBest-least f, ltb→lt b.specificity h.specificity lt)) f,
      )
  | inr ge ↦
      let (c, e, f) = pick-FirstBest hs b in (c, rw ge e, FirstBest-insert h (ground arith) f)
]

-- The chosen policy has the most specific pattern that matches the path, the first one where
-- several are as specific. Without a match, and only then, there is none.
pub match_upload_policy-FirstBest :
    (ps : List UploadPolicy) (path : Bytes)
    → ((match_upload_policy ps path ≡ none) × (hits 0 ps path ≡ []))
      ⊎ ((c : Best) × (match_upload_policy ps path ≡ some c) × FirstBest c (hits 0 ps path))
unfolding match_upload_policy
match_upload_policy-FirstBest ps path = rw (scan_policies-pick 0 path ps none) (go (hits 0 ps path))
  where
    go :
        (hs : List Best)
        → ((pick hs none ≡ none) × (hs ≡ []))
          ⊎ ((c : Best) × (pick hs none ≡ some c) × FirstBest c hs)
    go [] = inl (unfold pick in refl, refl)
    go (h ∷ hs) = inr (unfold pick in pick-FirstBest hs h)
