-- ===== src/Proxy/Upload/Limit.antt =====
-- internal/proxy/upload.go: `uploadLimitReadCloser`, which counts the bytes of a body while they are
-- copied to the upstream.
use veilgate.Prelude.{
  ℕ, ◌+◌, ◌-◌, ◌≤◌, ◌≡◌, ◌⊎◌, inl, inr, refl, ap, ◌∙◌, arith, Bool, true, false, List, [], ◌∷◌,
  ◌++◌, append_assoc, Option, none, some, Bytes, codes, leb, if◌then◌else◌, length, length-append,
  length-take, min, Bool-cases,
}
use veilgate.Http.{Request, Reply, error_reply, status_too_large}
use veilgate.Proxy.Guard.{Read, inner_read}
use veilgate.Proxy.Guard.Stream.{bytes, inner_read-bytes}
use veilgate.Proxy.Upload.{UploadPolicy}

pub data ReadError : Type 0 where
  upload_too_large from_body : ReadError

pub record LimitRead : Type 0 where
  pub got : Bytes
  pub error : Option ReadError

-- `remaining` starts positive, and no read takes more than it.
pub record LimitReader : Type 0 where
  pub inner : List Read
  pub remaining : ℕ
  pub exceeded : Bool

-- `withUploadBodyLimit` on a request with a body: no reader where there is no limit.
unfoldable pub with_upload_body_limit : Option UploadPolicy → List Read → Option LimitReader
with_upload_body_limit none body = none
with_upload_body_limit (some p) body =
    if leb p.max_body_bytes 0
    then none
    else some (record { inner = body; remaining = p.max_body_bytes; exceeded = false })

abbrev error_of : Bool → Option ReadError
error_of true = some from_body
error_of false = none

unfoldable pub limit_read : ℕ → LimitReader → LimitRead × LimitReader
limit_read room b =
    let (r, rest) = inner_read (min room b.remaining) b.inner in
    if leb b.remaining 0
    then (record { got = []; error = some upload_too_large }, record b { exceeded = true })
    else (
      record { got = r.got; error = error_of r.failed },
      record b { inner = rest; remaining = b.remaining - length r.got },
    )

-- What the upstream is sent: the reads of the copy, one for each room.
unfoldable pub limit_reads : List ℕ → LimitReader → Bytes × LimitReader
unfolding limit_read
limit_reads [] b = ([], b)
limit_reads (room ∷ rooms) b =
    let (r, b') = limit_read room b in let (out, c) = limit_reads rooms b' in (r.got ++ out, c)

abbrev is_too_large : Option ReadError → Bool
is_too_large (some upload_too_large) = true
is_too_large _ = false

-- `uploadErrorHandler`: its own reply, or `none` for the default handler's. The flag is
-- `uploadLimitExceeded`.
unfoldable pub upload_error_reply : Request → Option ReadError → Bool → Option Reply
upload_error_reply r e exceeded =
    if is_too_large e
    then some (error_reply r status_too_large (codes "payload_too_large"))
    else if exceeded
    then some (error_reply r status_too_large (codes "payload_too_large"))
    else none

inner_read-length : (room : ℕ) (cs : List Read) → length (inner_read room cs).0.got ≤ room
unfolding inner_read
inner_read-length room [] = omega arith
inner_read-length room (c ∷ cs) = ground (arith, length-take room c.got)

-- After a read: the bytes taken and those left are those there were, and the count is kept.
pub record Counted (b : LimitReader) (out : Bytes) (c : LimitReader) : Type 0 where
  pub split : out ++ bytes c.inner ≡ bytes b.inner
  pub count : length out + c.remaining ≡ b.remaining
  pub flag : (c.exceeded ≡ true) → (b.exceeded ≡ true) ⊎ (c.remaining ≡ 0)

limit_read-Counted :
    (room : ℕ) (b : LimitReader) → Counted b (limit_read room b).0.got (limit_read room b).1
unfolding limit_read
limit_read-Counted room b = record {
  split = ground (arith, inner_read-bytes (min room b.remaining) b.inner);
  count = ground (arith, inner_read-length (min room b.remaining) b.inner);
  flag = ground arith;
}

Counted-trans :
    {b c d : LimitReader} (x y : Bytes) → Counted b x c → Counted c y d → Counted b (x ++ y) d
Counted-trans x y p q = record {
  split = append_assoc x y _ ∙ ap (λ u. x ++ u) q.split ∙ p.split;
  count = omega (arith, length-append x y, p.count, q.count);
  flag = λ h. elim (q.flag h) [
    | inl e ↦ elim (p.flag e) [ inl f ↦ inl f | inr z ↦ inr (omega (arith, q.count)) ]
    | inr z ↦ inr z
  ];
}

limit_reads-Counted :
    (rooms : List ℕ) (b : LimitReader) → Counted b (limit_reads rooms b).0 (limit_reads rooms b).1
unfolding limit_reads
limit_reads-Counted [] b = record { split = refl; count = omega arith; flag = inl }
limit_reads-Counted (room ∷ rooms) b =
    let (r, b') = limit_read room b in
    Counted-trans r.got (limit_reads rooms b').0 (limit_read-Counted room b)
      (limit_reads-Counted rooms b')

-- However the upstream copy reads a limited body, it gets a beginning of the body, of no more than
-- the limit's bytes, and the limit is reported as exceeded only after all of these.
pub limit_reads_bounded :
    (p : UploadPolicy) (body : List Read) (b : LimitReader) (rooms : List ℕ)
    → with_upload_body_limit (some p) body ≡ some b
    → let (out, c) = limit_reads rooms b in
      (length out ≤ p.max_body_bytes)
      × (out ++ bytes c.inner ≡ bytes body)
      × ((c.exceeded ≡ false) ⊎ (length out ≡ p.max_body_bytes))
unfolding with_upload_body_limit
limit_reads_bounded p body b rooms h =
    let k = limit_reads-Counted rooms b in
    (
      ground (arith, k.count),
      ground (arith, k.split),
      elim (Bool-cases (limit_reads rooms b).1.exceeded) [
        | inl e ↦ elim (k.flag e) [ inl old ↦ ground arith | inr z ↦ inr (ground (arith, k.count)) ]
        | inr e ↦ inl e
      ],
    )

-- Once the limit's bytes are through, the next read fails as too large and marks the upload,
-- whether or not the body has more: a body of exactly the limit is refused if its end comes in a
-- read of its own.
pub limit_read_at_limit :
    (p : UploadPolicy) (body : List Read) (b : LimitReader) (rooms : List ℕ) (room : ℕ)
    → with_upload_body_limit (some p) body ≡ some b
    → length (limit_reads rooms b).0 ≡ p.max_body_bytes
    → let (r, c) = limit_read room (limit_reads rooms b).1 in
      (r.error ≡ some upload_too_large) × (c.exceeded ≡ true)
unfolding with_upload_body_limit limit_read
limit_read_at_limit p body b rooms room h full =
    let k = limit_reads-Counted rooms b in ground (arith, k.count)
