-- ===== src/H2fp.antt =====
-- internal/h2fp/h2fp.go: fingerprints of HTTP/2 settings, their database and the store of what was
-- captured for each connection. The hash is an argument. Times and durations are nanoseconds; a
-- negative time to live is out of the model, and so are the locks and the exporter's snapshot.
pub mod Classifying
mod Samples
use veilgate.Prelude.{
  ℕ, ◌+◌, ◌-◌, ◌/◌, ◌%◌, Bool, not, ◌&&◌, Option, none, some, List, [], ◌∷◌, ◌++◌, Bytes, bytes_eq,
  nat_eq, codes, ltb, ◌==◌, if◌then◌else◌, is_empty, Map, lookup, insert, retain, take, decimal,
  hex_encode,
}

pub record Settings : Type 0 where
  pub header_table_size : ℕ
  pub enable_push : ℕ
  pub max_concurrent_streams : ℕ
  pub initial_window_size : ℕ
  pub max_frame_size : ℕ
  pub max_header_list_size : ℕ
  pub order : List ℕ
  pub pseudo : List Bytes
  pub window_update : ℕ

-- `%04x` of 16 bits
abbrev hex4 : ℕ → Bytes
hex4 n = hex_encode (n / 256 ∷ n % 256 ∷ [])

unfoldable pub order_text : List ℕ → Bytes
order_text [] = []
order_text (o ∷ os) = hex4 o ++ (codes "." ++ order_text os)

-- `strings.Join` with a comma
unfoldable pub join_commas : List Bytes → Bytes
join_commas [] = []
join_commas (x ∷ xs) =
    let rest = join_commas xs in if is_empty xs then x else x ++ (codes "," ++ rest)

-- `%d|` for each number
unfoldable pub piped : List ℕ → Bytes
piped [] = []
piped (n ∷ ns) = decimal n ++ (codes "|" ++ piped ns)

-- The text that is hashed.
unfoldable pub settings_text : Settings → Bytes
settings_text s =
    piped (
      s.header_table_size ∷ s.enable_push ∷ s.max_concurrent_streams ∷ s.initial_window_size
      ∷ s.max_frame_size ∷ s.max_header_list_size ∷ [])
    ++ (order_text s.order
        ++ (codes "|" ++ (join_commas s.pseudo ++ (codes "|w=" ++ decimal s.window_update))))

-- `Fingerprint`
unfoldable pub h2_fingerprint : (Bytes → Bytes) → Settings → Bytes
h2_fingerprint sha1 s = hex_encode (take 6 (sha1 (settings_text s)))

pub record H2Match : Type 0 where
  pub label : Bytes
  pub category : Bytes
  pub confidence : ℕ

pub record H2Database : Type 0 where
  pub exact : Map Bytes H2Match
  pub by_pseudo : Map Bytes H2Match

pub record H2Entry : Type 0 where
  pub hash : Bytes
  pub pseudo : Bytes
  pub matched : H2Match

-- The loop of `Apply` for one of its two maps; a row without a key is skipped.
unfoldable pub add_rows : (H2Entry → Bytes) → List H2Entry → Map Bytes H2Match → Map Bytes H2Match
add_rows key [] m = m
add_rows key (r ∷ rows) m =
    add_rows key rows (if is_empty (key r) then m else insert (key r) r.matched m)

-- `Apply`: what was there before is gone.
abbrev pub apply_rows : List H2Entry → H2Database
apply_rows rows = record {
  exact = add_rows (λ (r : H2Entry). r.hash) rows [];
  by_pseudo = add_rows (λ (r : H2Entry). r.pseudo) rows [];
}

-- The confidence of a match by pseudo-headers alone.
abbrev pub weakened : Option H2Match → Option H2Match
weakened none = none
weakened (some m) =
    some (record m { confidence = if ltb 60 m.confidence then 60 else m.confidence })

-- `Database.Classify`
unfoldable pub classify_settings : (Bytes → Bytes) → H2Database → Settings → Option H2Match
classify_settings sha1 d s = elim (lookup (h2_fingerprint sha1 s) d.exact) [
  | some m ↦ some m
  | none ↦ if is_empty s.pseudo then none else weakened (lookup (join_commas s.pseudo) d.by_pseudo)
]

pub record H2Capture : Type 0 where
  pub settings : Settings
  pub captured_at : ℕ

pub record H2Store : Type 0 where
  pub captures : Map Bytes H2Capture
  pub ttl : ℕ

-- `NewStore`
abbrev pub new_h2_store : ℕ → H2Store
new_h2_store ttl = record { captures = []; ttl = if ttl == 0 then 600000000000 else ttl }

-- `Put`
abbrev pub put_settings : ℕ → Bytes → Settings → H2Store → H2Store
put_settings now remote settings s = record s {
  captures = insert remote (record { settings = settings; captured_at = now }) s.captures;
}

-- `time.Since(e.At) > s.ttl`
abbrev pub is_outdated : ℕ → ℕ → H2Capture → Bool
is_outdated ttl now e = ltb ttl (now - e.captured_at)

abbrev current_settings : ℕ → ℕ → Option H2Capture → Option Settings
current_settings ttl now none = none
current_settings ttl now (some e) = if is_outdated ttl now e then none else some e.settings

-- `Get`
unfoldable pub get_settings : ℕ → Bytes → H2Store → Option Settings
get_settings now remote s = current_settings s.ttl now (lookup remote s.captures)

-- `GC`
abbrev pub collect_settings : ℕ → H2Store → H2Store
collect_settings now s = record s {
  captures = retain (λ e. not (is_outdated s.ttl now e)) s.captures;
}

-- `looksMinimal`
abbrev pub looks_minimal : Settings → Bool
looks_minimal s =
    s.header_table_size == 0 && (s.max_concurrent_streams == 0 && s.initial_window_size == 0)

abbrev pub minimal_match : H2Match
minimal_match = record { label = codes "minimal_h2"; category = codes "unknown"; confidence = 50 }

abbrev pub or_minimal : Settings → Option H2Match → Option H2Match
or_minimal s (some m) = some m
or_minimal s none = if looks_minimal s then some minimal_match else none

-- `Classifier.Classify`, with a store and a database
unfoldable pub classify_remote : (Bytes → Bytes) → H2Database → ℕ → Bytes → H2Store → Option H2Match
classify_remote sha1 d now remote s = elim (get_settings now remote s) [
  | none ↦ none
  | some settings ↦ or_minimal settings (classify_settings sha1 d settings)
]
