-- ===== src/Core/Discovery.antt =====
-- internal/core/service.go, discoverAnchors: the issuers of several leaves that are not trusted yet.
-- `none` is the panic of `chain[1:]` on a chain that has no leaf.
use qoltanba.Prelude.{
  ◌≡◌, if◌then◌else◌, Bool, true, false, not, ◌⊎◌, inl, inr, Option, none, some, List, [], ◌∷◌,
  ◌++◌, map, any, Text, text_eq, is_empty, arith, Option-cases,
}
use qoltanba.Core.Contract.{Certificate, TrustedCert}
use qoltanba.Core.Chain.{Chains, is_self_issued, build_chain}

abbrev prepend : List TrustedCert → Option (List TrustedCert) → Option (List TrustedCert)
prepend xs none = none
prepend xs (some ys) = some (xs ++ ys)

module _ (v : Chains) (no_certificate : Certificate) where
  -- `nodeIsRoot`
  abbrev node_is_root : Text → Bool
  node_is_root pem = elim (v.parse (v.to_der pem)) [ none ↦ false | some c ↦ is_self_issued c ]

  -- the nodes of a chain above its leaf, with the keys of `have` before and after
  unfoldable pub add_nodes : List Text → List Certificate → List TrustedCert × List Text
  add_nodes have [] = ([], have)
  add_nodes have (c ∷ cs) =
      let key = v.to_der c.pem in
      let known = any (text_eq key) have in
      let (xs, have') = add_nodes (if known then have else key ∷ have) cs in
      if known
      then (xs, have')
      else (record { cert = c.pem; intermediate = not (node_is_root c.pem) } ∷ xs, have')

  -- the loop of `discoverAnchors` over the leaves
  unfoldable pub discover_from :
      List TrustedCert → List Text → List Text → Option (List TrustedCert)
  unfolding add_nodes build_chain
  discover_from trusted have [] = some []
  discover_from trusted have (der ∷ ders) = elim (build_chain v no_certificate der trusted).nodes [
    | [] ↦ none
    | _ ∷ above ↦
        let (xs, have') = add_nodes have above in prepend xs (discover_from trusted have' ders)
  ]

  -- `discoverAnchors`, where the service has a fetcher
  unfoldable pub discover_anchors : List Text → List TrustedCert → Option (List TrustedCert)
  unfolding discover_from
  discover_anchors ders trusted = discover_from trusted (map (λ t. v.to_der t.cert) trusted) ders

  -- A flaw: the discovery panics on a first leaf that is empty or that cannot be parsed.
  discover_anchors-panics :
      (der : Text) (ders : List Text) (trusted : List TrustedCert)
      → (is_empty der ≡ true) ⊎ (v.parse der ≡ none)
      → discover_anchors (der ∷ ders) trusted ≡ none
  unfolding discover_anchors build_chain
  discover_anchors-panics der ders trusted (inl empty) = elim (Option-cases (v.parse der)) [
    | inl garbled ↦ ground arith
    | inr (leaf, parsed) ↦ ground arith
  ]
  discover_anchors-panics der ders trusted (inr garbled) = ground arith
