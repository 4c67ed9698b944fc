-- ===== src/H2fp/Samples.antt =====
-- Examples and tests for internal/h2fp/h2fp.go: a hash that hands its text back.
use veilgate.Prelude.{
  some, ℕ, ◌≡◌, ◌≤◌, ◌-◌, ◌↔◌, arith, refl, List, [], ◌∷◌, codes, runs, decimal, hex_encode,
}
use veilgate.H2fp.{
  apply_rows, Settings, H2Match, H2Entry, add_rows, h2_fingerprint, settings_text, piped,
  join_commas, classify_settings, classify_remote, get_settings,
}
use veilgate.H2fp.Classifying.{
  H2Call, putting, collecting, store_after, Captured, Explained, classify_remote_iff,
}

abbrev captured : Settings
captured = record {
  header_table_size = 12;
  enable_push = 0;
  max_concurrent_streams = 0;
  initial_window_size = 0;
  max_frame_size = 0;
  max_header_list_size = 0;
  order = 3 ∷ [];
  pseudo = codes ":method" ∷ codes ":path" ∷ [];
  window_update = 0;
}

abbrev library : H2Match
library = record { label = codes "httpx"; category = codes "agent"; confidence = 60 }

abbrev rows : List H2Entry
rows =
    record {
      hash = [];
      pseudo = codes ":method,:path";
      matched = record { label = codes "httpx"; category = codes "agent"; confidence = 90 };
    }
    ∷ []

abbrev calls : List H2Call
calls = collecting 8 ∷ putting 5 (codes "a") captured ∷ []

fingerprint_run : h2_fingerprint (λ s. s) captured ≡ codes "31327c307c30"
unfolding runs h2_fingerprint hex_encode settings_text piped decimal
fingerprint_run = refl

classify_remote_iff_example :
    (classify_remote (λ s. s) (apply_rows rows) 9 (codes "a") (store_after 0 calls) ≡ some library)
    ↔ ((settings : Settings) × (t : ℕ) × Captured (codes "a") settings t calls
        × (9 - t ≤ (store_after 0 calls).ttl)
        × Explained (λ s. s) rows settings library)
classify_remote_iff_example =
    classify_remote_iff (λ s. s) rows 0 calls 9 (codes "a") library (omega arith, (omega arith, tt))

weakened_run :
    classify_remote (λ s. s) (apply_rows rows) 9 (codes "a") (store_after 0 calls) ≡ some library
unfolding runs classify_remote get_settings store_after classify_settings add_rows join_commas
weakened_run = refl
