-- ===== src/Tarpit/Profiles.antt =====
-- internal/tarpit/profile.go: the shadow profiles; `FakeData` of internal/rules/extra_loaders.go. The
-- hash and the generator of random numbers are arguments. Go draws the fields of a profile from left
-- to right.
use veilgate.Prelude.{
  ℕ, ◌+◌, Bool, ◌&&◌, ◌||◌, Option, none, some, List, [], ◌∷◌, Bytes, bytes_eq, codes, leb,
  is_empty, if◌then◌else◌, Map, lookup, length, get_elem?, filter, take, split, to_lower,
}
use veilgate.Verifier.Jwt.{set_bytes}

-- package math/rand: a generator for a seed, and `Intn`, which is asked for no bound of 0.
pub record Generators : Type 1 where
  pub Source : Type 0
  pub new_source : ℕ → Source
  pub intn : ℕ → Source → ℕ × Source

pub record FakeData : Type 0 where
  pub versions : List Bytes
  pub stacks : List Bytes
  pub companies : List Bytes
  pub admin_users : List Bytes
  pub admin_passes : List Bytes
  pub email_domains : List Bytes

-- What a profile is made of once; the seed is the pattern of its 64 bits.
pub record Identity : Type 0 where
  pub client : Bytes
  pub seed : ℕ
  pub version : Bytes
  pub stack : Bytes
  pub admin_user : Bytes
  pub admin_pass : Bytes
  pub company : Bytes
  pub slug : Bytes

pub record ShadowProfile : Type 0 where
  pub identity : Identity
  pub created_at : ℕ
  pub last_seen : ℕ
  pub visits : ℕ

abbrev or_fallback : Bytes → Option Bytes → Bytes
or_fallback fallback none = fallback
or_fallback fallback (some x) = x

abbrev first_word : List Bytes → Bytes
first_word [] = []
first_word (w ∷ _) = w

abbrev is_slug_byte : ℕ → Bool
is_slug_byte c = (leb b'a' c && leb c b'z') || (leb b'0' c && leb c b'9')

module _ (g : Generators) where
  open g use {Source, new_source, intn}

  -- `pick`; the generator keeps the index in bounds.
  unfoldable pub pick : List Bytes → Bytes → Source → Bytes × Source
  pick xs fallback s =
      if is_empty xs
      then (fallback, s)
      else (or_fallback fallback (get_elem? xs (intn (length xs) s).0), (intn (length xs) s).1)

  -- `companySlug`
  unfoldable pub company_slug : Bytes → List Bytes → Source → Bytes
  company_slug company domains s =
      let first = filter is_slug_byte (to_lower (first_word (split b' ' company))) in
      if is_empty first then (pick domains (codes "example") s).0 else first

  -- `create`, less the times and the store
  unfoldable pub identity_of : (Bytes → Bytes) → FakeData → Bytes → Identity
  identity_of sha256 fd client =
      let seed = set_bytes 0 (take 8 (sha256 client)) in
      let (company, s1) = pick fd.companies (codes "Acme Corp") (new_source seed) in
      let (version, s2) = pick fd.versions (codes "nginx/1.20.2") s1 in
      let (stack, s3) = pick fd.stacks (codes "node-express") s2 in
      let (user, s4) = pick fd.admin_users (codes "admin") s3 in
      let (pass, s5) = pick fd.admin_passes (codes "password123") s4 in
      record {
        client = client;
        seed = seed;
        version = version;
        stack = stack;
        admin_user = user;
        admin_pass = pass;
        company = company;
        slug = company_slug company fd.email_domains s5;
      }

  abbrev pub visited_at : ℕ → Identity → Option ShadowProfile → ShadowProfile
  visited_at now i none = record { identity = i; created_at = now; last_seen = now; visits = 1 }
  visited_at now i (some p) = record p { last_seen = now; visits = p.visits + 1 }

  -- `ProfileStore.Get`, with `create`: the profile, which the store then keeps
  unfoldable pub get_profile :
      (Bytes → Bytes) → FakeData → ℕ → Bytes → Map Bytes ShadowProfile → ShadowProfile
  get_profile sha256 fd now client profiles =
      visited_at now (identity_of sha256 fd client) (lookup client profiles)
