-- ===== src/Examples/Oidc.antt =====
-- The OIDC operations with one public client, and toy encodings.
use qoltanba.Prelude.{
  ◌+◌, ◌-◌, ◌≡◌, refl, ap, subst, inr, Bool, true, false, if◌then◌else◌, Option, none, some, [],
  ◌∷◌, ◌++◌, Text, codes, text_eq, text_eq_refl, Map, lookup, insert, delete, split, is_whole, ok,
  err, ok-injective, arith,
}
use qoltanba.Examples.Qr.{claims}
use qoltanba.Oidc.Contract.{Error, token_invalid, TokenResponse, TokenClaims}
use qoltanba.Oidc.Signer.{Crypto, dot, sign}
use qoltanba.Oidc.Clients.{
  Client, redirect_allowed, parse_clients, parse_from, parse_client, parse_parts, trimmed_uris,
}
use qoltanba.Oidc.Provider.{
  Config, Domain, common_claims, id_claims, access_claims, issue_tokens, user_info,
}
use qoltanba.Oidc.Tokens.{IsSound, IsReadable, IsSame, issue_tokens-user_info}
use qoltanba.Oidc.Authcode.{
  AuthCode, TokenRequest, State, is_past, put, exchange, authenticate, redeem, verify_pkce, take,
}
use qoltanba.Oidc.Redemption.{IsGuarded, IsKeyed, put-IsGuarded}
use qoltanba.Oidc.Exchange.{Step, Reach, Reach-IsGuarded, exchange-once}
use qoltanba.Oidc.Redeemed.{IsEntitled, exchange_sound}
use qoltanba.Oidc.Registry.{IsUsable, parse_clients-IsUsable}

abbrev same_text : Text → Text
same_text s = s

abbrev web : Client
web = record { id = codes "w"; secret = []; redirect_uris = codes "https://w" ∷ [] }

web_parsed : parse_clients same_text (codes "w||https://w" ∷ []) ≡ ok ((codes "w", web) ∷ [])
unfolding parse_clients parse_from parse_client parse_parts trimmed_uris split insert text_eq
web_parsed = refl

web_registered : lookup (codes "w") ((codes "w", web) ∷ []) ≡ some web
unfolding lookup text_eq
web_registered = refl

parse_clients-IsUsable_example : (codes "w" ≡ codes "w") × IsUsable web
parse_clients-IsUsable_example =
    parse_clients-IsUsable same_text (codes "w||https://w" ∷ []) ((codes "w", web) ∷ []) (codes "w")
      web web_parsed web_registered

abbrev cfg : Config
cfg = record {
  issuer = codes "i";
  audience = [];
  challenge_ttl = 300;
  token_ttl = 60000000000;
  require_ocsp = false;
  reap_interval = 60;
}

-- no byte of the alphabet is a dot
abbrev raise : Text → Text
raise [] = []
raise (c ∷ s) = (c + 47) ∷ raise s

abbrev lower : Text → Text
lower [] = []
lower (c ∷ s) = (c - 47) ∷ lower s

lower-raise : (t : Text) → lower (raise t) ≡ t
lower-raise [] = refl
lower-raise (c ∷ t) = ground (arith, lower-raise t)

raise_dotless : (t : Text) → is_whole dot (raise t) ≡ true
raise_dotless [] = refl
raise_dotless (c ∷ t) = ground (arith, raise_dotless t)

abbrev is_access : TokenClaims → Bool
is_access m = elim (lookup (codes "token_use") m) [ none ↦ false | some _ ↦ true ]

-- the payload says which of the two tokens it is
abbrev key : Crypto
key = record {
  header = [];
  encode_json = λ m. ok (if is_access m then codes "a" else codes "i");
  decode_json = λ p. some (
      if text_eq p (codes "a") then access_claims cfg claims 10 else id_claims cfg claims [] [] 10);
  encode_base64 = raise;
  decode_base64 = λ t. some (lower t);
  sign_rsa = λ t. ok t;
  verify_rsa = λ t sig. text_eq t sig;
}

key-IsSound : IsSound key
key-IsSound = record {
  base64 = λ t. ap some (lower-raise t);
  dotless = raise_dotless;
  rsa = λ t sig signed.
      subst (λ x. text_eq t x ≡ true) (ok-injective {E = Error} t sig signed) (text_eq_refl t);
}

access_claims-IsReadable : IsReadable key (access_claims cfg claims 10)
unfolding access_claims common_claims id_claims text_eq lookup insert
access_claims-IsReadable payload encoded =
    let e : codes "a" ≡ payload = ok-injective {E = Error} (codes "a") payload encoded in
    (
      access_claims cfg claims 10,
      subst (λ p. key.decode_json p ≡ some (access_claims cfg claims 10)) e refl,
      λ j. refl,
    )

id_claims-IsReadable : IsReadable key (id_claims cfg claims [] [] 10)
unfolding access_claims common_claims id_claims text_eq lookup insert
id_claims-IsReadable payload encoded =
    let e : codes "i" ≡ payload = ok-injective {E = Error} (codes "i") payload encoded in
    (
      id_claims cfg claims [] [] 10,
      subst (λ p. key.decode_json p ≡ some (id_claims cfg claims [] [] 10)) e refl,
      λ j. refl,
    )

abbrev token_of : Text → Text
token_of payload = let input = raise [] ++ dot ∷ raise payload in input ++ dot ∷ raise input

abbrev pair : TokenResponse
pair = record {
  id_token = token_of (codes "i");
  access_token = token_of (codes "a");
  token_type = codes "Bearer";
  expires_in = 60;
}

pair_issued : issue_tokens key cfg claims [] [] 10 ≡ ok pair
unfolding issue_tokens sign access_claims common_claims id_claims text_eq lookup insert
pair_issued = refl

issue_tokens-user_info_example :
    ((m : TokenClaims) × (user_info key cfg same_text pair.access_token 20 ≡ ok m)
      × IsSame (access_claims cfg claims 10) m)
    × ((m : TokenClaims) × (user_info key cfg same_text pair.id_token 20 ≡ ok m)
        × IsSame (id_claims cfg claims [] [] 10) m)
issue_tokens-user_info_example =
    issue_tokens-user_info key cfg same_text claims [] [] 10 20 pair key-IsSound
      access_claims-IsReadable id_claims-IsReadable pair_issued refl refl refl

abbrev registry : Map Client
registry = (codes "w", web) ∷ []

registry-IsKeyed : IsKeyed text_eq registry
registry-IsKeyed k c found =
    (parse_clients-IsUsable same_text (codes "w||https://w" ∷ []) registry k c web_parsed found).0

abbrev code : AuthCode
code = record {
  client_id = codes "w";
  redirect_uri = codes "https://w";
  nonce = [];
  claims = claims;
  code_challenge = codes "v";
  expires_at = 60;
}

abbrev state : State
state = record { challenges = []; codes = (codes "x", code) ∷ [] }

empty-IsGuarded : IsGuarded text_eq registry []
unfolding lookup
empty-IsGuarded = record { unique = tt; bound = λ k c found. absurd (ground arith) }

allowed : redirect_allowed web (codes "https://w") ≡ true
unfolding redirect_allowed text_eq
allowed = refl

state-IsGuarded : IsGuarded text_eq registry state.codes
unfolding put insert
state-IsGuarded =
    put-IsGuarded text_eq registry [] (codes "x") code empty-IsGuarded
      (web, web_registered, allowed, inr refl)

abbrev presented : TokenRequest
presented = record {
  grant_type = codes "authorization_code";
  code = codes "x";
  redirect_uri = codes "https://w";
  client_id = codes "w";
  client_secret = [];
  code_verifier = codes "v";
}

redeemed : (exchange text_eq registry same_text key cfg state presented 20 10).0 ≡ ok pair
unfolding exchange authenticate take is_past redeem verify_pkce issue_tokens sign access_claims
    common_claims id_claims text_eq lookup insert delete
redeemed = refl

exchange_sound_example :
    (client : Client) × (c : AuthCode) × (lookup (codes "w") registry ≡ some client)
    × (lookup (codes "x") state.codes ≡ some c)
    × (is_past 20 c ≡ false)
    × (c.client_id ≡ codes "w")
    × (c.redirect_uri ≡ codes "https://w")
    × IsEntitled text_eq registry key cfg same_text client c presented
    × (issue_tokens key cfg c.claims (codes "w") c.nonce 10 ≡ ok pair)
exchange_sound_example =
    exchange_sound text_eq registry key cfg same_text state presented 20 10 pair state-IsGuarded
      redeemed

web_known : authenticate text_eq registry same_text key cfg presented ≡ ok web
unfolding authenticate lookup text_eq
web_known = refl

abbrev domain : Domain
domain = record {
  verifier = λ q. err token_invalid;
  validator = λ q. err token_invalid;
  trim_space = same_text;
}

abbrev redirect : Text → Text → Text → Option Text
redirect uri _ _ = some uri

abbrev after : State
after = (exchange text_eq registry same_text key cfg state presented 20 10).1

exchange-once_example :
    (e : Error) × ((exchange text_eq registry same_text key cfg after presented 30 30).0 ≡ err e)
exchange-once_example =
    exchange-once text_eq registry domain key cfg same_text redirect state after presented presented
      web 20 10 30 30 registry-IsKeyed state-IsGuarded web_known refl Reach.here

Reach-IsGuarded_example : IsGuarded text_eq registry after.codes
Reach-IsGuarded_example =
    Reach-IsGuarded text_eq registry domain key cfg same_text redirect (codes "y") state after
      registry-IsKeyed state-IsGuarded (Reach.next Reach.here (Step.exchanged presented 20 10))
