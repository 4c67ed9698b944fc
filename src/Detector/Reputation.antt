-- ===== src/Detector/Reputation.antt =====
-- internal/rules/ip_reputation.go: the category of an address. Addresses and networks are those of
-- package net, a parameter.
use veilgate.Prelude.{
  ℕ, Bool, false, not, Option, none, some, List, [], ◌∷◌, ◌++◌, Bytes, codes, ◌==◌, nat_eq,
  bytes_eq, if◌then◌else◌, is_empty, any,
}
use veilgate.Proxy.ClientIp.{Addresses}

module _ (a : Addresses) where
  -- `Parsed` of a category holds its networks.
  pub record Category : Type 0 where
    pub name : Bytes
    pub points : ℕ
    pub cidrs : List Bytes

  -- The networks of a category, which `LoadIPReputation` parses: a CIDR, or else a single address
  -- with a mask of its length; what is neither is dropped.
  pub record Parsers : Type 0 where
    pub parse_cidr : Bytes → Option a.Net
    pub is_v4 : a.Ip → Bool

  abbrev single : Parsers → Bytes → Option a.Ip → Option a.Net
  single p c none = none
  single p c (some ip) = p.parse_cidr (c ++ (if p.is_v4 ip then codes "/32" else codes "/128"))

  unfoldable pub parse_network : Parsers → Bytes → Option a.Net
  parse_network p c = elim (p.parse_cidr c) [ some n ↦ some n | none ↦ single p c (a.parse_ip c) ]

  unfoldable pub parsed : (Bytes → Option a.Net) → List Bytes → List a.Net
  parsed parse [] = []
  parsed parse (c ∷ cs) =
      let rest = parsed parse cs in elim (parse c) [ none ↦ rest | some n ↦ n ∷ rest ]

  -- `Classify`
  unfoldable pub classify_ip : Parsers → List Category → a.Ip → Option (Bytes × ℕ)
  classify_ip p [] ip = none
  classify_ip p (cat ∷ cats) ip =
      let rest = classify_ip p cats ip in
      if any (λ n. a.contains_ip n ip) (parsed (parse_network p) cat.cidrs)
      then some (cat.name, cat.points)
      else rest

  unfoldable pub classify : Parsers → List Category → Bytes → Option (Bytes × ℕ)
  classify p cats text = elim (a.parse_ip text) [ none ↦ none | some ip ↦ classify_ip p cats ip ]

  -- `IsPublicIP`
  unfoldable pub is_public_ip : Parsers → List Bytes → Bytes → Bool
  is_public_ip p private text =
      let nets = parsed p.parse_cidr private in
      if is_empty nets then false else elim (a.parse_ip text) [
        | none ↦ false
        | some ip ↦ not (any (λ n. a.contains_ip n ip) nets)
      ]

  -- One category of a further file: it joins the one of its name, or comes last.
  unfoldable pub merge_category : List Category → Category → List Category
  merge_category [] pc = pc ∷ []
  merge_category (cat ∷ cats) pc =
      let rest = merge_category cats pc in
      if cat.name == pc.name
      then record {
        name = cat.name;
        points = if pc.points == 0 then cat.points else pc.points;
        cidrs = cat.cidrs ++ pc.cidrs;
      }
        ∷ cats
      else cat ∷ rest

  -- `mergeIPReputationDir` on the categories
  unfoldable pub merge_categories : List Category → List Category → List Category
  merge_categories cats [] = cats
  merge_categories cats (pc ∷ pcs) = merge_categories (merge_category cats pc) pcs
