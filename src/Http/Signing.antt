-- ===== src/Http/Signing.antt =====
-- What is signed is what is sent.
use okx_cpp_api.Prelude.{◌≡◌, refl, true, false, some, [], ◌++◌, append-nil, Bytes, codes}
use okx_cpp_api.Http.{
  Verb, get, post, Request, Signer, HttpSession, Parameters, get_request, post_request,
}
use okx_cpp_api.Http.Query.{parameter}

abbrev verb_text : Verb → Bytes
verb_text get = codes "GET"
verb_text post = codes "POST"

-- The exchange checks the signature over the time, the verb, the target and the body that it sees.
pub record IsSigned (signer : Signer) (session : HttpSession) (ts : Bytes) (r : Request)
    : Type 0 where
  pub key : parameter (codes "OK-ACCESS-KEY") r.headers ≡ some session.api_key
  pub signature :
      parameter (codes "OK-ACCESS-SIGN") r.headers
      ≡ some (signer.sign session.api_secret (ts ++ (verb_text r.verb ++ (r.target ++ r.body))))
  pub timestamp : parameter (codes "OK-ACCESS-TIMESTAMP") r.headers ≡ some ts
  pub passphrase : parameter (codes "OK-ACCESS-PASSPHRASE") r.headers ≡ some session.passphrase

module _ (signer : Signer) (session : HttpSession) (ts path : Bytes) where
  get-IsSigned :
      (parameters : Parameters)
      → IsSigned signer session ts (get_request signer session ts path parameters false)
  unfolding get_request parameter
  get-IsSigned parameters = record {
    key = refl;
    signature = rw append-nil;
    timestamp = refl;
    passphrase = refl;
  }

  post-IsSigned :
      (json : Bytes) → IsSigned signer session ts (post_request signer session ts path json false)
  unfolding post_request parameter
  post-IsSigned json = record { key = refl; signature = refl; timestamp = refl; passphrase = refl }

  -- A private GET carries the key, the passphrase, the time, and a signature over the time, the verb,
  -- the target with its query string, and the (empty) body that are sent; a private POST the same
  -- over its body, which is the JSON text. A public GET carries no header of these.
  pub private-IsSigned :
      (parameters : Parameters) (json : Bytes)
      → IsSigned signer session ts (get_request signer session ts path parameters false)
        × IsSigned signer session ts (post_request signer session ts path json false)
        × ((post_request signer session ts path json false).body ≡ json)
        × ((get_request signer session ts path parameters true).headers ≡ [])
  unfolding get_request post_request
  private-IsSigned parameters json = (get-IsSigned parameters, post-IsSigned json, refl, refl)
