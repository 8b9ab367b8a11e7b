-- ===== src/Tests/Submitted.antt =====
-- A document that the server signed, submitted with the server's public key.
use pqc_api.Prelude.{
  ◌≡◌, refl, true, false, is_empty, none, some, [], ◌∷◌, text, str_eq, if◌then◌else◌,
}
use pqc_api.Crypto.Signer.{is_ml_dsa_65}
use pqc_api.Crypto.Signer.Keys.{IsPair}
use pqc_api.Api.Http.{Request, Form, json_response}
use pqc_api.Api.Documents.{base64_encode}
use pqc_api.Api.Documents.Submitted.{find_pdf, submitted_doc, verify_external, verify_external_own}
use pqc_api.Tests.Fakes.Crypto.{openssl, openssl-Base64Laws}
use pqc_api.Tests.Fakes.Text.{json}
use pqc_api.Tests.Fakes.Stores.{redis}
use pqc_api.Tests.Fakes.Archive.{archive}
use pqc_api.Tests.Fakes.Keys.{evp, evp-SignatureLaws, evp-PemLaws}
use pqc_api.Tests.Documents.{content, signer, signature, content_signed, world}

abbrev pair : IsPair evp signer
pair = record { key = 5; copy = 5; private_live = refl; public_live = refl; copied = refl }

abbrev submission : Form
submission = record {
  files = record { item_name = text "pdf"; file_name = text "a.pdf"; content = content } ∷ [];
  parameters = λ k.
      if str_eq k (text "signature")
      then some (base64_encode openssl signature)
      else if str_eq k (text "public_key")
      then some (5 ∷ [])
      else none;
}

abbrev submitted : Request
submitted = record { body = []; authorization = []; form = some submission }

pdf_located : find_pdf submission.files ≡ content
unfolding find_pdf str_eq text
pdf_located = refl

signature_given : submission.parameters (text "signature") ≡ some (base64_encode openssl signature)
unfolding str_eq text
signature_given = refl

key_given : submission.parameters (text "public_key") ≡ some (5 ∷ [])
unfolding str_eq text
key_given = refl

kind_known : is_ml_dsa_65 evp 5 ≡ true
unfolding is_ml_dsa_65 str_eq text
kind_known = refl

content_given : is_empty content ≡ false
unfolding text
content_given = refl

verify_external_own_example :
    verify_external openssl json evp signer redis archive submitted world
    ≡ (json_response json (submitted_doc true true) 200, world)
verify_external_own_example =
    verify_external_own openssl json evp signer redis archive openssl-Base64Laws evp-SignatureLaws
      evp-PemLaws submitted submission world content signature (5 ∷ []) pair refl pdf_located
      content_given content_signed refl kind_known refl signature_given key_given
