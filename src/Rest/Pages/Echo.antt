-- ===== src/Rest/Pages/Echo.antt =====
-- A network for the examples, with a client and the texts of integers.
use okx_cpp_api.Prelude.{ℕ, ◌≡◌, refl, [], ◌∷◌, ◌==◌, if◌then◌else◌, Bytes, codes, bytes_eq}
use okx_cpp_api.Prelude.Int.{ℤ, pos, negsuc}
use okx_cpp_api.Result.{Result, ok}
use okx_cpp_api.Http.{Network, Signer}
use okx_cpp_api.Rest.{RestClient, new_rest_client}

abbrev pub no_signer : Signer
no_signer = record { sign = λ secret message. [] }

abbrev pub stoi : Bytes → Result ℤ
stoi s = if bytes_eq s (codes "0") then ok (pos 0) else ok (pos 1)

abbrev pub fresh : RestClient ℕ
fresh = new_rest_client (codes "key") (codes "secret") (codes "phrase")

-- An exchange that serves a history by the text of "after": the network gives the target of the request
-- back, and the text behind "after=" is read from it. An integer is written as a byte and its sign.
abbrev pub signed_text : ℤ → Bytes
signed_text (pos n) = n ∷ b'+' ∷ []
signed_text (negsuc n) = n ∷ b'-' ∷ []

abbrev pub signed_of : Bytes → ℤ
signed_of (n ∷ sign ∷ s) = if sign == b'+' then pos n else negsuc n
signed_of _ = pos 0

pub signed_of-signed_text : (n : ℤ) → signed_of (signed_text n) ≡ n
signed_of-signed_text (pos n) = refl
signed_of-signed_text (negsuc n) = refl

abbrev pub echo : Network
echo host req = ok (record { result_int = 200; body = req.target })
