-- ===== src/Tests/Streams.antt =====
-- A stream of JSON, and the answer with the CA.
use hambo.Base.{
  ℕ, String, true, List, [], ◌∷◌, none, some, ok, err, failure, ◌≡◌, refl, differ, dec_string,
  arith,
}
use hambo.Token.{generate, generate_secret, ca_fingerprint}
use hambo.Client.Enrollment.{fetch_and_verify_ca}
use hambo.Api.Construct.Fetched.{fetched, fetch_and_verify_ca-get_ca_handler}
use hambo.Api.Stream.{JsonStream, Write, start_json_stream, write_all, write_all-up_to_error}
use hambo.Tests.Workers.{crypto}

-- The second value cannot be written.
abbrev writes : List (Write ℕ)
writes = (1, ok tt) ∷ (2, err (failure "broken pipe")) ∷ (3, ok tt) ∷ []

abbrev started : JsonStream ℕ
started = record { sent = []; error = none }

is_started : start_json_stream true ≡ some started
unfolding start_json_stream
is_started = refl

write_all-up_to_error_example :
    write_all writes started ≡ record { sent = 1 ∷ []; error = some (failure "broken pipe") }
write_all-up_to_error_example = write_all-up_to_error writes started is_started

abbrev pem_encode : String → List ℕ → List ℕ
pem_encode kind bytes = bytes

fetch_and_verify_ca-get_ca_handler_example :
    fetch_and_verify_ca crypto "fp" (fetched crypto pem_encode (7 ∷ [])) ≡ ok (7 ∷ [])
unfolding generate generate_secret ca_fingerprint
fetch_and_verify_ca-get_ca_handler_example =
    fetch_and_verify_ca-get_ca_handler crypto pem_encode (7 ∷ []) (some (1 ∷ []))
      (record { ca_fingerprint = "fp"; secret = "fp" }) (λ bytes. refl) refl (omega arith) refl
      (differ "fp" "" (unfold dec_string in refl))
