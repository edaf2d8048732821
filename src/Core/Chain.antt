-- ===== src/Core/Chain.antt =====
-- internal/core/chain.go: the chain of a leaf. A parsed certificate has the parts that chain.go
-- reads; the parsers, the check of a signature and the fetcher of issuers are arguments.
use qoltanba.Prelude.{
  ℕ, zero, suc, if◌then◌else◌, Bool, true, false, not, ◌&&◌, ◌||◌, Option, none, some, List, [],
  ◌∷◌, map, any, Text, text_eq, is_empty,
}
use qoltanba.Core.Contract.{Certificate, TrustedCert}

-- a certificate that crypto/x509 can parse
pub record X509 : Type 0 where
  pub raw : Text
  pub raw_subject : Text
  pub raw_issuer : Text
  pub authority_key_id : Text
  pub subject_key_id : Text

-- what `CheckSignatureFrom` answers, with the errors that `isUnsupportedAlgo` tells apart
pub data SignatureCheck : Type 0 where
  verified unsupported wrong : SignatureCheck

pub record Chains : Type 0 where
  pub to_der : Text → Text
  pub parse : Text → Option X509
  pub check_signature_from : X509 → X509 → SignatureCheck
  pub fetcher : Option (Text → Option Text)
  pub cert_from_x509 : X509 → Certificate

-- the chain, and whether it reached a self-signed root and a configured anchor
pub record Chain : Type 0 where
  pub nodes : List Certificate
  pub complete : Bool
  pub anchored : Bool

abbrev pub max_chain_depth : ℕ
max_chain_depth = 16

-- `isSelfIssued`
abbrev pub is_self_issued : X509 → Bool
is_self_issued c = text_eq c.raw_issuer c.raw_subject

abbrev pub is_verified : SignatureCheck → Bool
is_verified verified = true
is_verified unsupported = false
is_verified wrong = false

abbrev pub is_wrong : SignatureCheck → Bool
is_wrong verified = false
is_wrong unsupported = false
is_wrong wrong = true

abbrev pub first_of : Option X509 → X509 → Option X509
first_of none c = some c
first_of (some b) c = some b

abbrev pub or_else : Option X509 → Option X509 → Option X509
or_else none b = b
or_else (some a) b = some a

module _ (v : Chains) where
  -- `issues`
  abbrev pub issues : X509 → X509 → Bool
  issues cur c = not (is_wrong (v.check_signature_from cur c))

  -- the guard of `findIssuer` and `fetchIssuer`
  abbrev pub is_issuer : X509 → X509 → Bool
  is_issuer cur c = text_eq cur.raw_issuer c.raw_subject && issues cur c

  abbrev pub has_key_id : X509 → X509 → Bool
  has_key_id cur c =
      not (is_empty cur.authority_key_id) && text_eq cur.authority_key_id c.subject_key_id

  -- the loop of `findIssuer`, with the candidates by key id and by name that it holds
  unfoldable pub find_from : X509 → Option X509 → Option X509 → List X509 → Option X509
  find_from cur by_key by_name [] = or_else by_key by_name
  find_from cur by_key by_name (c ∷ cs) =
      let eligible = is_issuer cur c in
      let by_key' = if eligible && has_key_id cur c then first_of by_key c else by_key in
      let by_name' = if eligible && not (has_key_id cur c) then first_of by_name c else by_name in
      let rest = find_from cur by_key' by_name' cs in
      if eligible && is_verified (v.check_signature_from cur c) then some c else rest

  -- `findIssuer`
  unfoldable pub find_issuer : X509 → List X509 → Option X509
  unfolding find_from
  find_issuer cur cs = find_from cur none none cs

  -- `fetchIssuer`
  unfoldable pub fetch_issuer : X509 → Option X509
  fetch_issuer cur = elim v.fetcher [
    | none ↦ none
    | some fetch ↦ elim (fetch cur.raw) [
      | none ↦ none
      | some der ↦ elim (v.parse der) [
        | none ↦ none
        | some c ↦ if not (is_empty der) && is_issuer cur c then some c else none
      ]
    ]
  ]

  -- the candidates by name, then the fetcher
  unfoldable pub next_issuer : X509 → List X509 → Option X509
  unfolding find_issuer fetch_issuer
  next_issuer cur cs = or_else (find_issuer cur cs) (fetch_issuer cur)

  abbrev parsed_from : Option X509 → List X509 → List X509
  parsed_from none cs = cs
  parsed_from (some c) cs = c ∷ cs

  -- `candidates`
  unfoldable pub candidates : List TrustedCert → List X509
  candidates [] = []
  candidates (t ∷ ts) =
      let rest = candidates ts in
      let der = v.to_der t.cert in if is_empty der then rest else parsed_from (v.parse der) rest

  -- `anchorDERs`
  unfoldable pub anchor_ders : List TrustedCert → List Text
  anchor_ders [] = []
  anchor_ders (t ∷ ts) =
      let rest = anchor_ders ts in
      let der = v.to_der t.cert in
      elim (v.parse der) [ none ↦ rest | some _ ↦ if is_empty der then rest else der ∷ rest ]

  -- the loop of `buildChain`, for so many rounds: the issuers, `complete`, and `anchored` by them
  unfoldable pub walk : List X509 → List Text → ℕ → X509 → List Text → List X509 × Bool × Bool
  unfolding next_issuer
  walk cs anchors zero cur seen = ([], false, false)
  walk cs anchors (suc n) cur seen =
      let onward : List X509 × Bool × Bool = elim (next_issuer cur cs) [
        | none ↦ ([], false, false)
        | some c ↦
            let (xs, complete, anchored) = walk cs anchors n c (c.raw_subject ∷ seen) in
            if any (text_eq c.raw_subject) seen
            then ([], false, false)
            else (c ∷ xs, complete, any (text_eq c.raw) anchors || anchored)
      ] in
      if is_self_issued cur then ([], true, false) else onward

  -- the chain of a leaf that is parsed
  unfoldable pub chain_of : Certificate → Text → List TrustedCert → X509 → Chain
  unfolding candidates anchor_ders walk
  chain_of leaf_full leaf_der trusted leaf =
      let anchors = anchor_ders trusted in
      let (xs, complete, anchored) =
        walk (candidates trusted) anchors max_chain_depth leaf (leaf.raw_subject ∷ []) in
      record {
        nodes = leaf_full ∷ map v.cert_from_x509 xs;
        complete = complete;
        anchored = any (text_eq leaf_der) anchors || anchored;
      }

  abbrev no_chain : Chain
  no_chain = record { nodes = []; complete = false; anchored = false }

  -- `buildChain`
  unfoldable pub build_chain : Certificate → Text → List TrustedCert → Chain
  unfolding chain_of
  build_chain leaf_full leaf_der trusted = elim (v.parse leaf_der) [
    | none ↦ no_chain
    | some leaf ↦ if is_empty leaf_der then no_chain else chain_of leaf_full leaf_der trusted leaf
  ]
