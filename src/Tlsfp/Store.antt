-- ===== src/Tlsfp/Store.antt =====
-- internal/tlsfp/listener.go: the fingerprints that are kept for the connections. Times are numbers,
-- and `time.Now` is an argument; the lock is left out.
use veilgate.Prelude.{
  ℕ, ◌-◌, ◌≤◌, ◌≡◌, arith, Bool, not, List, [], ◌∷◌, Option, none, some, Bytes, bytes_eq, nat_eq,
  ◌==◌, ltb, if◌then◌else◌, Map, lookup, insert, retain, IsMap, insert-IsMap, retain-IsMap,
  lookup-retain, Option-cases, inl, inr,
}

pub record Fingerprint : Type 0 where
  pub ja3 : Bytes
  pub ja4 : Bytes
  pub sni : Bytes

pub record StoreEntry : Type 0 where
  pub fingerprint : Fingerprint
  pub put_at : ℕ

pub record Store : Type 0 where
  pub entries : Map Bytes StoreEntry
  pub ttl : ℕ

-- `NewStore`, with times in nanoseconds
abbrev pub new_store : ℕ → Store
new_store ttl = record { entries = []; ttl = if ttl == 0 then 600000000000 else ttl }

-- `Put`
unfoldable pub put_fingerprint : ℕ → Bytes → Fingerprint → Store → Store
put_fingerprint now remote fp s = record s {
  entries = insert remote (record { fingerprint = fp; put_at = now }) s.entries;
}

-- `now.Sub(e.At) > ttl`; an entry from the future is not old.
abbrev pub is_expired : ℕ → ℕ → StoreEntry → Bool
is_expired ttl now e = ltb ttl (now - e.put_at)

abbrev current : ℕ → ℕ → Option StoreEntry → Option Fingerprint
current ttl now none = none
current ttl now (some e) = if is_expired ttl now e then none else some e.fingerprint

-- `Get`
unfoldable pub get_fingerprint : ℕ → Bytes → Store → Option Fingerprint
get_fingerprint now remote s = current s.ttl now (lookup remote s.entries)

-- `GC`
unfoldable pub collect_expired : ℕ → Store → Store
collect_expired now s = record s { entries = retain (λ e. not (is_expired s.ttl now e)) s.entries }

pub data StoreCall : Type 0 where
  put_call : ℕ → Bytes → Fingerprint → StoreCall
  gc_call : ℕ → StoreCall

unfoldable pub store_calls : List StoreCall → Store → Store
unfolding put_fingerprint collect_expired
store_calls [] s = s
store_calls (put_call now remote fp ∷ cs) s = store_calls cs (put_fingerprint now remote fp s)
store_calls (gc_call now ∷ cs) s = store_calls cs (collect_expired now s)

store_calls-IsMap :
    (cs : List StoreCall) (s : Store) → IsMap s.entries → IsMap (store_calls cs s).entries
unfolding store_calls
store_calls-IsMap [] s h = h
store_calls-IsMap (put_call now remote fp ∷ cs) s h =
    store_calls-IsMap cs _
      (insert-IsMap remote (record { fingerprint = fp; put_at = now }) s.entries h)
store_calls-IsMap (gc_call now ∷ cs) s h =
    store_calls-IsMap cs _
      (retain-IsMap (λ (e : StoreEntry). not (is_expired s.ttl now e)) s.entries h)

-- After any calls of a new store, a collection is not to be seen: from its time on each connection
-- gets the fingerprint that it would get without the collection.
pub collect_expired-unseen :
    (ttl : ℕ) (cs : List StoreCall) (now later : ℕ) (remote : Bytes)
    → now ≤ later
    → get_fingerprint later remote (collect_expired now (store_calls cs (new_store ttl)))
      ≡ get_fingerprint later remote (store_calls cs (new_store ttl))
unfolding get_fingerprint collect_expired
collect_expired-unseen ttl cs now later remote h =
    let s = store_calls cs (new_store ttl) in
    elim (Option-cases (lookup remote s.entries)) [
      | inl e ↦ ground (
        arith,
        lookup-retain (λ (e : StoreEntry). not (is_expired s.ttl now e)) remote s.entries
            (store_calls-IsMap cs (new_store ttl) tt),
      )
      | inr (x, e) ↦ ground (
        arith,
        lookup-retain (λ (e : StoreEntry). not (is_expired s.ttl now e)) remote s.entries
            (store_calls-IsMap cs (new_store ttl) tt),
      )
    ]
