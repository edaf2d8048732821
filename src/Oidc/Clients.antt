-- ===== src/Oidc/Clients.antt =====
-- authcode.go: the registry of relying parties. `trim_space` stands for strings.TrimSpace.
use qoltanba.Prelude.{
  if◌then◌else◌, Bool, List, [], ◌∷◌, any, Text, text_eq, is_empty, Map, insert, split, Result, ok,
  err,
}

pub record Client : Type 0 where
  pub id : Text
  pub secret : Text
  pub redirect_uris : List Text

-- `Client.redirectAllowed`
unfoldable pub redirect_allowed : Client → Text → Bool
redirect_allowed c uri = any (λ u. text_eq u uri) c.redirect_uris

-- the errors of `ParseClients`, without their text
pub data Error : Type 0 where
  too_few_parts empty_client_id no_redirect_uri : Error

module _ (trim_space : Text → Text) where
  -- the loop over the redirect URIs
  unfoldable pub trimmed_uris : List Text → List Text
  trimmed_uris [] = []
  trimmed_uris (u ∷ us) =
      let rest = trimmed_uris us in let u' = trim_space u in if is_empty u' then rest else u' ∷ rest

  -- the parts of one entry
  unfoldable pub parse_parts : List Text → Result Error Client
  unfolding trimmed_uris
  parse_parts (id ∷ secret ∷ u ∷ us) =
      let client : Client = record {
        id = trim_space id;
        secret = trim_space secret;
        redirect_uris = trimmed_uris (u ∷ us);
      } in
      if is_empty client.id
      then err empty_client_id
      else if is_empty client.redirect_uris
      then err no_redirect_uri
      else ok client
  parse_parts [] = err too_few_parts
  parse_parts (_ ∷ []) = err too_few_parts
  parse_parts (_ ∷ _ ∷ []) = err too_few_parts

  -- one entry of the configuration
  unfoldable pub parse_client : Text → Result Error Client
  unfolding split parse_parts
  parse_client raw = parse_parts (split 124 raw)

  -- the loop of `ParseClients`
  unfoldable pub parse_from : List Text → Map Client → Result Error (Map Client)
  unfolding parse_client insert
  parse_from [] out = ok out
  parse_from (raw ∷ entries) out = elim (parse_client raw) [
    | err e ↦ err e
    | ok client ↦ parse_from entries (insert client.id client out)
  ]

  -- `ParseClients`
  unfoldable pub parse_clients : List Text → Result Error (Map Client)
  unfolding parse_from
  parse_clients entries = parse_from entries []
