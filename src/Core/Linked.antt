-- ===== src/Core/Linked.antt =====
-- internal/core/chain.go, buildChain: how long the chain is, and what links it.
use qoltanba.Prelude.{
  ℕ, zero, suc, ◌≤◌, ◌≡◌, refl, sym, ap, subst, ◌∙◌, ◌⊎◌, inl, inr, Bool, true, false, not, ◌&&◌,
  ◌||◌, Option, none, some, List, [], ◌∷◌, map, any, length, Text, text_eq, is_empty, arith,
  Option-cases, Bool-cases,
}
use qoltanba.Core.Contract.{Certificate, TrustedCert}
use qoltanba.Core.Chain.{
  X509, Chains, max_chain_depth, is_self_issued, is_verified, is_issuer, has_key_id, first_of,
  find_from, find_issuer, fetch_issuer, next_issuer, candidates, anchor_ders, walk, chain_of,
  build_chain,
}

-- no subject stands twice in the chain, nor among those before it
abbrev pub IsNew : List Text → List X509 → Type 0
IsNew seen [] = Unit
IsNew seen (c ∷ cs) = (any (text_eq c.raw_subject) seen ≡ false) × IsNew (c.raw_subject ∷ seen) cs

-- the last certificate of a chain, its leaf included
abbrev pub last_of : X509 → List X509 → X509
last_of leaf [] = leaf
last_of leaf (c ∷ cs) = last_of c cs

module _ (v : Chains) where
  -- every certificate is an issuer of the one before it, by name and by signature, where Go can
  -- check it, and none but the last is its own issuer
  abbrev pub IsLinked : X509 → List X509 → Type 0
  IsLinked cur [] = Unit
  IsLinked cur (c ∷ cs) = (is_issuer v cur c ≡ true) × (is_self_issued cur ≡ false) × IsLinked c cs

  -- where there is a candidate, it is an issuer
  abbrev IsIssuing : X509 → Option X509 → Type 0
  IsIssuing cur none = Unit
  IsIssuing cur (some c) = is_issuer v cur c ≡ true

  first_of-IsIssuing :
      (cur : X509) (b : Option X509) (c : X509)
      → IsIssuing cur b
      → is_issuer v cur c ≡ true
      → IsIssuing cur (first_of b c)
  first_of-IsIssuing cur none c h e = e
  first_of-IsIssuing cur (some b) c h e = h

  find_from-IsIssuing :
      (cur : X509) (by_key by_name : Option X509) (cs : List X509)
      → IsIssuing cur by_key
      → IsIssuing cur by_name
      → IsIssuing cur (find_from v cur by_key by_name cs)
  unfolding find_from
  find_from-IsIssuing cur none by_name [] k n = n
  find_from-IsIssuing cur (some b) by_name [] k n = k
  find_from-IsIssuing cur by_key by_name (c ∷ cs) k n = elim (Bool-cases (is_issuer v cur c)) [
    | inr other ↦
        subst (IsIssuing cur) {x = find_from v cur by_key by_name cs} (ground arith)
          (find_from-IsIssuing cur by_key by_name cs k n)
    | inl issuer ↦ elim (Bool-cases (is_verified (v.check_signature_from cur c))) [
      | inl sure ↦ subst (IsIssuing cur) {x = some c} (ground arith) issuer
      | inr unsure ↦ elim (Bool-cases (has_key_id v cur c)) [
        | inl keyed ↦
            subst (IsIssuing cur) {x = find_from v cur (first_of by_key c) by_name cs}
              (ground arith)
              (find_from-IsIssuing cur (first_of by_key c) by_name cs
                (first_of-IsIssuing cur by_key c k issuer) n)
        | inr named ↦
            subst (IsIssuing cur) {x = find_from v cur by_key (first_of by_name c) cs}
              (ground arith)
              (find_from-IsIssuing cur by_key (first_of by_name c) cs k
                (first_of-IsIssuing cur by_name c n issuer))
      ]
    ]
  ]

  fetch_issuer-IsIssuing : (cur : X509) → IsIssuing cur (fetch_issuer v cur)
  unfolding fetch_issuer
  fetch_issuer-IsIssuing cur = elim (Option-cases v.fetcher) [
    | inl offline ↦ missing (ground arith)
    | inr (fetch, online) ↦ elim (Option-cases (fetch cur.raw)) [
      | inl nothing ↦ missing (ground arith)
      | inr (der, fetched) ↦ elim (Option-cases (v.parse der)) [
        | inl garbled ↦ missing (ground arith)
        | inr (c, parsed) ↦ elim (Bool-cases (not (is_empty der) && is_issuer v cur c)) [
          | inr other ↦ missing (ground arith)
          | inl issuer ↦ subst (IsIssuing cur) {x = some c} (ground arith) (ground arith)
        ]
      ]
    ]
  ]
    where
      missing : none ≡ fetch_issuer v cur → IsIssuing cur (fetch_issuer v cur)
      missing e = subst (IsIssuing cur) e tt

  find_issuer-IsIssuing : (cur : X509) (cs : List X509) → IsIssuing cur (find_issuer v cur cs)
  unfolding find_issuer
  find_issuer-IsIssuing cur cs = find_from-IsIssuing cur none none cs tt tt

  next_issuer-IsIssuing :
      (cur : X509) (cs : List X509) (c : X509)
      → next_issuer v cur cs ≡ some c
      → is_issuer v cur c ≡ true
  unfolding next_issuer
  next_issuer-IsIssuing cur cs c h =
      subst (IsIssuing cur) h (elim (Option-cases (find_issuer v cur cs)) [
        | inl unknown ↦
            subst (IsIssuing cur) {x = fetch_issuer v cur} (ground arith)
              (fetch_issuer-IsIssuing cur)
        | inr (b, known) ↦
            subst (IsIssuing cur) {x = some b} (ground arith)
              (subst (IsIssuing cur) known (find_issuer-IsIssuing cur cs))
      ])

  -- what the rounds of the loop find
  abbrev pub IsWalk : List Text → ℕ → X509 → List Text → List X509 × Bool × Bool → Type 0
  IsWalk anchors n cur seen r =
      (length r.0 ≤ n)
      × IsLinked cur r.0
      × IsNew seen r.0
      × ((r.1 ≡ false) ⊎ (is_self_issued (last_of cur r.0) ≡ true))
      × (r.2 ≡ any (λ c. any (text_eq c.raw) anchors) r.0)

  walk-IsWalk :
      (cs : List X509) (anchors : List Text) (n : ℕ) (cur : X509) (seen : List Text)
      → IsWalk anchors n cur seen (walk v cs anchors n cur seen)
  unfolding walk
  walk-IsWalk cs anchors zero cur seen = (omega arith, tt, tt, inl refl, refl)
  walk-IsWalk cs anchors (suc n) cur seen = elim (Bool-cases (is_self_issued cur)) [
    | inl root ↦
        subst (IsWalk anchors (suc n) cur seen) {x = ([], true, false)} (ground arith)
          (omega arith, tt, tt, inr root, refl)
    | inr signed ↦ elim (Option-cases (next_issuer v cur cs)) [
      | inl nobody ↦
          subst (IsWalk anchors (suc n) cur seen) {x = ([], false, false)} (ground arith)
            (omega arith, tt, tt, inl refl, refl)
      | inr (c, found) ↦ elim (Bool-cases (any (text_eq c.raw_subject) seen)) [
        | inl again ↦
            subst (IsWalk anchors (suc n) cur seen) {x = ([], false, false)} (ground arith)
              (omega arith, tt, tt, inl refl, refl)
        | inr fresh ↦
            let r = walk v cs anchors n c (c.raw_subject ∷ seen) in
            let (bound, linked, distinct, ended, anchored) =
              walk-IsWalk cs anchors n c (c.raw_subject ∷ seen) in
            subst (IsWalk anchors (suc n) cur seen)
              {x = (c ∷ r.0, r.1, any (text_eq c.raw) anchors || r.2)} (ground arith)
              (
                omega (arith, bound),
                (next_issuer-IsIssuing cur cs c found, signed, linked),
                (fresh, distinct),
                ended,
                ap (λ b. any (text_eq c.raw) anchors || b) anchored,
              )
      ]
    ]
  ]

  build_chain-parsed :
      (leaf_full : Certificate) (leaf_der : Text) (trusted : List TrustedCert) (leaf : X509)
      → is_empty leaf_der ≡ false
      → v.parse leaf_der ≡ some leaf
      → build_chain v leaf_full leaf_der trusted ≡ chain_of v leaf_full leaf_der trusted leaf
  unfolding build_chain
  build_chain-parsed leaf_full leaf_der trusted leaf full parsed = ground arith

  -- For a leaf that can be parsed, the chain is the leaf followed by at most sixteen certificates:
  -- each is an issuer of the one before it, by name and, where Go can check it, by signature, none
  -- but the last is its own issuer, and no subject occurs twice. The chain is complete only if it
  -- ends in a certificate that is its own issuer, and it is anchored exactly when the leaf or one of
  -- its issuers is a configured anchor.
  pub build_chain-IsLinked :
      (leaf_full : Certificate) (leaf_der : Text) (trusted : List TrustedCert) (leaf : X509)
      → is_empty leaf_der ≡ false
      → v.parse leaf_der ≡ some leaf
      → (xs : List X509) × ((build_chain v leaf_full leaf_der trusted).nodes
          ≡ leaf_full ∷ map v.cert_from_x509 xs)
        × (length xs ≤ max_chain_depth)
        × IsLinked leaf xs
        × IsNew (leaf.raw_subject ∷ []) xs
        × (((build_chain v leaf_full leaf_der trusted).complete ≡ false)
            ⊎ (is_self_issued (last_of leaf xs) ≡ true))
        × ((build_chain v leaf_full leaf_der trusted).anchored ≡ (
            any (text_eq leaf_der) (anchor_ders v trusted)
            || any (λ c. any (text_eq c.raw) (anchor_ders v trusted)) xs))
  unfolding chain_of
  build_chain-IsLinked leaf_full leaf_der trusted leaf full parsed =
      let r =
        walk v (candidates v trusted) (anchor_ders v trusted) max_chain_depth leaf
          (leaf.raw_subject ∷ []) in
      let (bound, linked, fresh, ended, anchored) =
        walk-IsWalk (candidates v trusted) (anchor_ders v trusted) max_chain_depth leaf
          (leaf.raw_subject ∷ []) in
      let e = build_chain-parsed leaf_full leaf_der trusted leaf full parsed in
      (
        r.0,
        ap (λ c. c.nodes) e,
        bound,
        linked,
        fresh,
        subst (λ b. (b ≡ false) ⊎ (is_self_issued (last_of leaf r.0) ≡ true))
            (sym (ap (λ c. c.complete) e)) ended,
        ap (λ c. c.anchored) e
            ∙ ap (λ b. any (text_eq leaf_der) (anchor_ders v trusted) || b) anchored,
      )
