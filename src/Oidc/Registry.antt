-- ===== src/Oidc/Registry.antt =====
-- authcode.go: the registry that `ParseClients` makes.
use qoltanba.Prelude.{
  ◌≡◌, subst, inl, inr, false, List, [], ◌∷◌, some, Text, text_eq, text_eq_iff, is_empty, Map,
  lookup, insert, lookup-insert, split, ok, ok-injective, arith, Result-cases, Bool-cases, All,
}
use qoltanba.Oidc.Clients.{
  Client, Error, trimmed_uris, parse_parts, parse_client, parse_from, parse_clients,
}

-- an id, and at least one redirect URI, none of them empty
abbrev pub IsUsable : Client → Type 0
IsUsable c =
    (is_empty c.id ≡ false)
    × (is_empty c.redirect_uris ≡ false)
    × All (λ u. is_empty u ≡ false) c.redirect_uris

module _ (trim_space : Text → Text) where
  trimmed_uris-All : (us : List Text) → All (λ u. is_empty u ≡ false) (trimmed_uris trim_space us)
  unfolding trimmed_uris
  trimmed_uris-All [] = tt
  trimmed_uris-All (u ∷ us) = elim (Bool-cases (is_empty (trim_space u))) [
    | inl blank ↦ rw blank (trimmed_uris-All us)
    | inr given ↦ rw given (given, trimmed_uris-All us)
  ]

  parse_parts-IsUsable :
      (parts : List Text) (c : Client) → parse_parts trim_space parts ≡ ok c → IsUsable c
  unfolding parse_parts
  parse_parts-IsUsable [] c h = absurd (ground arith)
  parse_parts-IsUsable (_ ∷ []) c h = absurd (ground arith)
  parse_parts-IsUsable (_ ∷ _ ∷ []) c h = absurd (ground arith)
  parse_parts-IsUsable (id ∷ secret ∷ u ∷ us) c h =
      let made : Client = record {
        id = trim_space id;
        secret = trim_space secret;
        redirect_uris = trimmed_uris trim_space (u ∷ us);
      } in
      elim (Bool-cases (is_empty made.id)) [
        | inl anonymous ↦ absurd (ground arith)
        | inr named ↦ elim (Bool-cases (is_empty made.redirect_uris)) [
          | inl nowhere ↦ absurd (ground arith)
          | inr somewhere ↦
              let e : made ≡ c = ok-injective {E = Error} made c (ground arith) in
              subst IsUsable e (named, somewhere, trimmed_uris-All (u ∷ us))
        ]
      ]

  parse_client-IsUsable :
      (raw : Text) (c : Client) → parse_client trim_space raw ≡ ok c → IsUsable c
  unfolding parse_client
  parse_client-IsUsable raw c h = parse_parts-IsUsable (split 124 raw) c h

  -- clients stand under their ids, and are usable
  abbrev pub IsRegistry : Map Client → Type 0
  IsRegistry m = (k : Text) (c : Client) → lookup k m ≡ some c → (c.id ≡ k) × IsUsable c

  parse_from-IsRegistry :
      (entries : List Text) (out m : Map Client)
      → IsRegistry out
      → parse_from trim_space entries out ≡ ok m
      → IsRegistry m
  unfolding parse_from
  parse_from-IsRegistry [] out m r h = subst IsRegistry (ok-injective {E = Error} out m h) r
  parse_from-IsRegistry (raw ∷ entries) out m r h =
      elim (Result-cases (parse_client trim_space raw)) [
        | inr (e, refused) ↦ absurd (ground arith)
        | inl (c, parsed) ↦
            parse_from-IsRegistry entries (insert c.id c out) m
              (λ k t found. elim (Bool-cases (text_eq c.id k)) [
                | inl same ↦
                    let e : c ≡ t = ground (arith, lookup-insert c.id k c out) in
                    (
                      ground (arith, text_eq_iff c.id k),
                      subst IsUsable e (parse_client-IsUsable raw c parsed),
                    )
                | inr other ↦ r k t (ground (arith, lookup-insert c.id k c out))
              ])
              (ground arith)
      ]

  -- Every client that `ParseClients` registers stands under its own id, which is not empty, and has
  -- at least one redirect URI, none of them empty.
  pub parse_clients-IsUsable :
      (entries : List Text) (m : Map Client) (k : Text) (c : Client)
      → parse_clients trim_space entries ≡ ok m
      → lookup k m ≡ some c
      → (c.id ≡ k) × IsUsable c
  unfolding parse_clients lookup
  parse_clients-IsUsable entries m k c h found =
      parse_from-IsRegistry entries [] m (λ j t none_there. absurd (ground arith)) h k c found
