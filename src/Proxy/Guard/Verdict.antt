-- ===== src/Proxy/Guard/Verdict.antt =====
-- internal/proxy/framing_guard.go: what a server behind the guard reads of a new connection, and
-- for which first requests the guard closes it.
use veilgate.Prelude.{
  ℕ, zero, suc, ◌+◌, ◌≤◌, ◌≡◌, ◌↔◌, ◌⊎◌, inl, inr, refl, sym, ap, ◌∙◌, arith, Bool, true, false,
  List, [], ◌∷◌, ◌++◌, append-nil, some, Bytes, length, take, contains, index, Option-cases, All,
  index-append, index-prefix, index-bound, contains-index, index-contains,
}
use mathlib.Core.Bool.{false≢true}
use veilgate.Proxy.Framing.{bad_http_request_framing}
use veilgate.Proxy.Guard.{
  Read, at_end, inner_read, Conn, accept, Gathered, gather, finish_check, size, check_first_request,
  read, blank_line, read_size, max_framing_guard_header_bytes,
}
use veilgate.Proxy.Guard.Stream.{
  bytes, Faithful, reads, reads-closed, reads-Faithful, check_first_request-Checked, gather_total,
  gather-bytes,
}

abbrev started : Conn → Conn
started c = record c { checked = true }

read_first :
    (room : ℕ) (c c' : Conn)
    → c.checked ≡ false
    → check_first_request (started c) ≡ some c'
    → c'.checked ≡ true
    → read room c ≡ read room c'
unfolding read
read_first room c c' h e h' = ground arith

reads_first :
    (room : ℕ) (rooms : List ℕ) (c c' : Conn)
    → read room c ≡ read room c'
    → reads (room ∷ rooms) c ≡ reads (room ∷ rooms) c'
unfolding reads
reads_first room rooms c c' e = rw (e, reads)

-- However a server reads a new connection, it gets the bytes that the peer sends, each once and in
-- order, or, where the guard has closed the connection, no byte at all.
pub reads-accept :
    (h2 : Bool) (cs : List Read) (room : ℕ) (rooms : List ℕ)
    → (out : Bytes) × (c : Conn) × (reads (room ∷ rooms) (accept h2 cs) ≡ some (out, c))
      × Faithful (bytes cs) out c
reads-accept h2 cs room rooms =
    let (c', e, (h, end)) = check_first_request-Checked (started (accept h2 cs)) refl refl in
    let first =
      reads_first room rooms (accept h2 cs) c' (read_first room (accept h2 cs) c' refl e h) in
    elim end [
      | inl shut ↦ ([], c', first ∙ reads-closed (room ∷ rooms) c' h shut, inl (shut, refl))
      | inr (live, same) ↦
          let (out, c, f, faithful) = reads-Faithful (room ∷ rooms) c' h in
          (out, c, first ∙ f, rw same at faithful)
    ]

take-append_le : (n : ℕ) (xs ys : Bytes) → n ≤ length xs → take n (xs ++ ys) ≡ take n xs
take-append_le zero xs ys h = refl
take-append_le (suc n) [] ys h = absurd (omega arith)
take-append_le (suc n) (x ∷ xs) ys h = ap (◌∷◌ x) (take-append_le n xs ys (omega arith))

abbrev AllFine : List Read → Type 0
AllFine = All (λ r. r.failed ≡ false)

inner_read-fine :
    (room : ℕ) (cs : List Read)
    → AllFine cs
    → AllFine (inner_read room cs).1
      × (((inner_read room cs).0.failed ≡ false)
          ⊎ ((inner_read room cs ≡ (at_end, [])) × (cs ≡ [])))
unfolding inner_read
inner_read-fine room [] h = (tt, inr (refl, refl))
inner_read-fine room (c ∷ cs) h = ground arith

-- How the loop ends where no read fails before the end: with a blank line, with the buffer full, or
-- at the end of the connection without one.
abbrev Full : Gathered → Type 0
Full g =
    ((g.failed ≡ false)
      × ((contains g.raw blank_line ≡ true) ⊎ (max_framing_guard_header_bytes ≤ length g.raw)))
    ⊎ ((contains g.raw blank_line ≡ false) × (bytes g.rest ≡ []))

gather-Full :
    (fuel : ℕ) (buf : Bytes) (cs : List Read) {g : Gathered}
    → contains buf blank_line ≡ false
    → AllFine cs
    → gather fuel buf cs ≡ some g
    → Full g
unfolding gather
gather-Full zero buf cs n h e = cc
gather-Full (suc fuel) buf cs {g} n h e =
    let (r, rest) = inner_read read_size cs in
    let (fine, reading) = inner_read-fine read_size cs h in
    elim reading [
      | inl ok ↦ ground (arith, gather-Full fuel (buf ++ r.got) rest {g = g}, no_more r.got)
      | inr (ended, nothing) ↦ ground (
        arith,
        no_more r.got,
        ap (λ (p : Read × List Read). p.0.got) ended,
        ap (λ (p : Read × List Read). p.0.failed) ended,
        ap (λ (p : Read × List Read). bytes p.1) ended,
      )
    ]
  where
    no_more : (got : Bytes) → got ≡ [] → contains (buf ++ got) blank_line ≡ false
    no_more got x = rw (x, append-nil) n

-- The first header block that the peer sends, if it ends within what the guard looks at.
abbrev Header : Bytes → ℕ → Type 0
Header all i = (index all blank_line ≡ some i) × (i + 4 ≤ max_framing_guard_header_bytes)

finish_check-closed :
    (c : Conn) (g : Gathered)
    → c.closed ≡ false
    → (finish_check c g).closed ≡ true
    → (i : ℕ) × (index (g.raw ++ bytes g.rest) blank_line ≡ some i)
      × (bad_http_request_framing (take i (g.raw ++ bytes g.rest)) ≡ true)
unfolding finish_check
finish_check-closed c g k h = elim (Option-cases (index g.raw blank_line)) [
  | inl e ↦ absurd (false≢true (ground arith))
  | inr (i, e) ↦ (
    i,
    index-append 13 (10 ∷ 13 ∷ 10 ∷ []) g.raw (bytes g.rest) e,
    rw (take-append_le i g.raw (bytes g.rest) (omega (arith, bound i e))) (ground arith),
  )
]
  where
    bound : (i : ℕ) → index g.raw blank_line ≡ some i → i + 4 ≤ length g.raw
    bound i = index-bound 13 (10 ∷ 13 ∷ 10 ∷ []) g.raw

Full-index :
    (g : Gathered) (i : ℕ)
    → Full g
    → Header (g.raw ++ bytes g.rest) i
    → (g.failed ≡ false) × (index g.raw blank_line ≡ some i)
Full-index g i (inl (fine, inl found)) (e, le) =
    let (j, f) = contains-index 13 (10 ∷ 13 ∷ 10 ∷ []) g.raw found in
    (fine, f ∙ sym (index-append 13 (10 ∷ 13 ∷ 10 ∷ []) g.raw (bytes g.rest) f) ∙ e)
Full-index g i (inl (fine, inr full)) (e, le) =
    (fine, index-prefix 13 (10 ∷ 13 ∷ 10 ∷ []) g.raw (bytes g.rest) e (omega arith))
Full-index g i (inr (absent, drained)) (e, le) = absurd (
    false≢true (
      sym absent
      ∙ index-contains 13 (10 ∷ 13 ∷ 10 ∷ []) g.raw {i = i} (rw (drained, append-nil) at e)))

finish_check-verdict :
    (c : Conn) (g : Gathered) (i : ℕ)
    → c.closed ≡ false
    → Full g
    → Header (g.raw ++ bytes g.rest) i
    → ((finish_check c g).closed ≡ true)
      ↔ (bad_http_request_framing (take i (g.raw ++ bytes g.rest)) ≡ true)
unfolding finish_check
finish_check-verdict c g i k full head =
    let (fine, e) = Full-index g i full head in
    rw
      (take-append_le i g.raw (bytes g.rest)
        (omega (arith, index-bound 13 (10 ∷ 13 ∷ 10 ∷ []) g.raw e)))
      (ground (arith, fine, e, k))

-- Where no read fails and the first header block ends within the 32 KiB that the guard looks at,
-- the guard closes the connection exactly if the block fails the framing test.
pub check_first_request_iff :
    (cs : List Read) (i : ℕ)
    → All (λ r. r.failed ≡ false) cs
    → index (bytes cs) blank_line ≡ some i
    → i + 4 ≤ max_framing_guard_header_bytes
    → (c : Conn) × (check_first_request (record (accept false cs) { checked = true }) ≡ some c)
      × ((c.closed ≡ true) ↔ (bad_http_request_framing (take i (bytes cs)) ≡ true))
unfolding check_first_request contains
check_first_request_iff cs i fine e le =
    let (g, gathered) = gather_total cs in
    let same : g.raw ++ bytes g.rest ≡ bytes cs =
      gather-bytes (suc (size cs)) [] cs {g = g} gathered in
    (
      finish_check (started (accept false cs)) g,
      rw gathered,
      rw same at (
          finish_check-verdict (started (accept false cs)) g i refl
            (gather-Full (suc (size cs)) [] cs {g = g} refl fine gathered) (rw same (e, le))),
    )

-- A connection is closed only over a header block that the peer sent and that fails the test.
pub check_first_request-closed :
    (h2 : Bool) (cs : List Read) (c : Conn)
    → check_first_request (record (accept h2 cs) { checked = true }) ≡ some c
    → c.closed ≡ true
    → (h2 ≡ false)
      × ((i : ℕ) × (index (bytes cs) blank_line ≡ some i)
          × (bad_http_request_framing (take i (bytes cs)) ≡ true))
unfolding check_first_request
check_first_request-closed true cs c e h = absurd (false≢true (ground arith))
check_first_request-closed false cs c e h =
    let (g, gathered) = gather_total cs in
    let same : g.raw ++ bytes g.rest ≡ bytes cs =
      gather-bytes (suc (size cs)) [] cs {g = g} gathered in
    let start = started (accept false cs) in
    (refl, rw same at (finish_check-closed start g refl (ground (arith, gathered))))
