-- ===== src/Proxy/Guard/Stream.antt =====
-- internal/proxy/framing_guard.go: the guard neither drops, repeats nor reorders a byte of what the
-- peer sends, and its loop ends.
use veilgate.Prelude.{
  ℕ, zero, suc, ◌<◌, ◌≡◌, ◌⊎◌, ◌≢◌, inl, inr, refl, sym, ap, ◌∙◌, arith, true, false, List, [], ◌∷◌,
  ◌++◌, append_assoc, Option, none, some, Bytes, nat_eq, leb, length, eq_nil_of_length, length-drop,
  take, drop, take-append-drop, Bool-cases, Option-cases,
}
use veilgate.Proxy.Guard.{
  Read, at_end, inner_read, Conn, Gathered, gather, finish_check, size, check_first_request,
  serve_read, read, read_size,
}

-- The bytes that the reads still hold.
abbrev pub bytes : List Read → Bytes
bytes [] = []
bytes (c ∷ cs) = c.got ++ bytes cs

-- What a read took and what is left make up what was there.
pub inner_read-bytes :
    (cap : ℕ) (cs : List Read) → (inner_read cap cs).0.got ++ bytes (inner_read cap cs).1 ≡ bytes cs
unfolding inner_read
inner_read-bytes cap [] = refl
inner_read-bytes cap (c ∷ cs) = elim (Bool-cases (leb (length c.got) cap)) [
  | inl h ↦ rw h
  | inr h ↦ rw h (
      sym (append_assoc (take cap c.got) (drop cap c.got) (bytes cs))
      ∙ ap (λ u. u ++ bytes cs) (take-append-drop cap c.got))
]

inner_read-size :
    (cap : ℕ) (cs : List Read)
    → 0 < cap
    → ((inner_read cap cs).0.failed ≡ true) ⊎ (size (inner_read cap cs).1 < size cs)
unfolding inner_read
inner_read-size cap [] h = inl refl
inner_read-size cap (c ∷ cs) h = ground (arith, length-drop cap c.got)

-- The loop ends by itself: the fuel is never used up.
gather-ne-none :
    (fuel : ℕ) (buf : Bytes) (cs : List Read) → size cs < fuel → gather fuel buf cs ≢ none
unfolding gather
gather-ne-none zero buf cs h = absurd (omega arith)
gather-ne-none (suc fuel) buf cs h =
    let (r, rest) = inner_read read_size cs in
    ground (arith, inner_read-size read_size cs, gather-ne-none fuel (buf ++ r.got) rest)

pub gather_total : (cs : List Read) → (g : Gathered) × (gather (suc (size cs)) [] cs ≡ some g)
gather_total cs = elim (Option-cases (gather (suc (size cs)) [] cs)) [
  | inl e ↦ absurd (gather-ne-none (suc (size cs)) [] cs (omega arith) e)
  | inr g ↦ g
]

pub gather-bytes :
    (fuel : ℕ) (buf : Bytes) (cs : List Read) {g : Gathered}
    → gather fuel buf cs ≡ some g
    → g.raw ++ bytes g.rest ≡ buf ++ bytes cs
unfolding gather
gather-bytes zero buf cs e = cc
gather-bytes (suc fuel) buf cs {g} e =
    let (r, rest) = inner_read read_size cs in
    let same : (buf ++ r.got) ++ bytes rest ≡ buf ++ bytes cs =
      append_assoc buf r.got (bytes rest) ∙ ap (λ u. buf ++ u) (inner_read-bytes read_size cs) in
    ground (arith, same, gather-bytes fuel (buf ++ r.got) rest {g = g})

abbrev held : Option Bytes → Bytes
held none = []
held (some raw) = raw

-- What the server has still to read: the replay, then the connection.
abbrev pub pending : Conn → Bytes
pending c = held c.replay ++ bytes c.inner

-- With no room nothing is taken, so that a replay in front stays in front.
inner_read_zero :
    (cs : List Read) → ((inner_read 0 cs).0.got ≡ []) × (bytes (inner_read 0 cs).1 ≡ bytes cs)
inner_read_zero cs = (
  nothing cs,
  ap (λ u. u ++ bytes (inner_read 0 cs).1) (sym (nothing cs)) ∙ inner_read-bytes 0 cs,
)
  where
    nothing : (cs : List Read) → (inner_read 0 cs).0.got ≡ []
    nothing [] = unfold inner_read in refl
    nothing (c ∷ cs) = unfold inner_read in ground (arith, eq_nil_of_length c.got)

taken : (cap : ℕ) (raw rest : Bytes) → take cap raw ++ (drop cap raw ++ rest) ≡ raw ++ rest
taken cap raw rest =
    sym (append_assoc (take cap raw) (drop cap raw) rest)
    ∙ ap (λ u. u ++ rest) (take-append-drop cap raw)

abbrev Served : ℕ → Conn → Read × Conn → Type 0
Served cap c (r, c') =
    (r.got ++ pending c' ≡ pending c) × (c'.closed ≡ false) × (c'.checked ≡ c.checked)

from_replay-Served :
    (cap : ℕ) (c : Conn) (o : Option Bytes)
    → c.closed ≡ false
    → c.replay ≡ o
    → Served cap c (serve_read cap c)
unfolding serve_read
from_replay-Served cap c none h e = ground (arith, inner_read-bytes cap c.inner)
from_replay-Served cap c (some []) h e = ground (arith, inner_read-bytes cap c.inner)
from_replay-Served zero c (some (b ∷ raw)) h e = ground (arith, inner_read_zero c.inner)
from_replay-Served (suc n) c (some (b ∷ raw)) h e =
    ground (arith, taken (suc n) (b ∷ raw) (bytes c.inner))

-- The server has read `out` of what the peer sent as `all`: a beginning of it, or nothing at all.
abbrev pub Faithful : Bytes → Bytes → Conn → Type 0
Faithful all out c =
    ((c.closed ≡ true) × (out ≡ [])) ⊎ ((c.closed ≡ false) × (out ++ pending c ≡ all))

-- The reads that a server makes, one for each room, and what they brought in all.
unfoldable pub reads : List ℕ → Conn → Option (Bytes × Conn)
reads [] c = some ([], c)
reads (cap ∷ caps) c = elim (read cap c) [
  | none ↦ none
  | some (r, c') ↦ elim (reads caps c') [ none ↦ none | some (out, d) ↦ some (r.got ++ out, d) ]
]

serve_read-closed : (cap : ℕ) (c : Conn) → c.closed ≡ true → serve_read cap c ≡ (at_end, c)
unfolding serve_read
serve_read-closed cap c h = rw h

read_checked : (room : ℕ) (c : Conn) → c.checked ≡ true → read room c ≡ some (serve_read room c)
unfolding read
read_checked room c h = rw h

read_closed :
    (room : ℕ) (c : Conn) → c.checked ≡ true → c.closed ≡ true → read room c ≡ some (at_end, c)
read_closed room c h k = read_checked room c h ∙ ap some (serve_read-closed room c k)

pub reads-closed :
    (rooms : List ℕ) (c : Conn) → c.checked ≡ true → c.closed ≡ true → reads rooms c ≡ some ([], c)
unfolding reads
reads-closed [] c h k = refl
reads-closed (room ∷ rooms) c h k =
    rw (read_closed room c h k, reads) (rw (reads-closed rooms c h k, reads))

abbrev Reads : Bytes → List ℕ → Conn → Type 0
Reads all rooms c =
    (out : Bytes) × (d : Conn) × (reads rooms c ≡ some (out, d))
    × (d.closed ≡ false)
    × (out ++ pending d ≡ all)

Reads-open :
    (rooms : List ℕ) (c : Conn) → c.checked ≡ true → c.closed ≡ false → Reads (pending c) rooms c
unfolding reads
Reads-open [] c h k = ([], c, refl, k, refl)
Reads-open (room ∷ rooms) c h k =
    let (r, c') = serve_read room c in
    let (split, k', h') = from_replay-Served room c c.replay k refl in
    let (out, d, e, live, same) = Reads-open rooms c' (h' ∙ h) k' in
    (
      r.got ++ out,
      d,
      rw (read_checked room c h, reads) (rw (e, reads)),
      live,
      append_assoc r.got out (pending d) ∙ ap (λ u. r.got ++ u) same ∙ split,
    )

pub reads-Faithful :
    (rooms : List ℕ) (c : Conn)
    → c.checked ≡ true
    → (out : Bytes) × (d : Conn) × (reads rooms c ≡ some (out, d)) × Faithful (pending c) out d
reads-Faithful rooms c h = elim (Bool-cases c.closed) [
  | inl k ↦ ([], c, reads-closed rooms c h k, inl (k, refl))
  | inr k ↦ let (out, d, e, live, same) = Reads-open rooms c h k in (out, d, e, inr (live, same))
]

-- What the check leaves of a fresh connection: all that the peer sends, or a closed connection.
abbrev pub Checked : Conn → Conn → Type 0
Checked c c' =
    (c'.checked ≡ c.checked)
    × ((c'.closed ≡ true) ⊎ ((c'.closed ≡ false) × (pending c' ≡ pending c)))

finish_check-Checked :
    (c : Conn) (g : Gathered)
    → c.closed ≡ false
    → c.replay ≡ none
    → g.raw ++ bytes g.rest ≡ bytes c.inner
    → Checked c (finish_check c g)
unfolding finish_check
finish_check-Checked c g h k e = ground arith

pub check_first_request-Checked :
    (c : Conn)
    → c.closed ≡ false
    → c.replay ≡ none
    → (c' : Conn) × (check_first_request c ≡ some c') × Checked c c'
unfolding check_first_request
check_first_request-Checked c h k = elim (Bool-cases c.h2) [
  | inl two ↦ (c, ground arith, (refl, inr (h, refl)))
  | inr one ↦
      let (g, e) = gather_total c.inner in
      (
        finish_check c g,
        ground arith,
        finish_check-Checked c g h k (gather-bytes (suc (size c.inner)) [] c.inner {g = g} e),
      )
]
