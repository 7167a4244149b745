-- ===== src/Api/Status.antt =====
-- `STATUS_BY_ERROR` and `handle_domain_error`: the answer to a domain error.
use yt_scrapper.Base.{ℕ, String, List, [], ◌∷◌, if◌then◌else◌, ◌≡◌, refl}
use yt_scrapper.Errors.{
  ErrorClass, Failure, domain, Message, is_instance, tubedepth, validation, not_found, unavailable,
  upstream, configuration, rate_limited, extraction, unauthenticated, retracted, conflict,
}

-- A row of the table: a class, the status and the label.
pub record Answer : Type 0 where
  pub class : ErrorClass
  pub code : ℕ
  pub label : String

abbrev row : ErrorClass → ℕ → String → Answer
row class code label = record { class = class; code = code; label = label }

unfoldable status_by_error : List Answer
status_by_error =
    row unauthenticated 401 "unauthenticated"
    ∷ row rate_limited 429 "rate_limited"
    ∷ row validation 422 "invalid_request"
    ∷ row not_found 404 "not_found"
    ∷ row unavailable 404 "unavailable"
    ∷ row conflict 409 "conflict"
    ∷ row retracted 410 "retracted"
    ∷ row extraction 502 "parse_mismatch"
    ∷ row upstream 502 "upstream_error"
    ∷ row configuration 503 "not_configured"
    ∷ row tubedepth 500 "internal_error"
    ∷ []

-- `next((...), default)`
unfoldable answer_among : Failure → List Answer → ℕ × String
answer_among e [] = (500, "internal_error")
answer_among e (r ∷ rows) = if is_instance r.class e then (r.code, r.label) else answer_among e rows

-- `handle_domain_error`, without the text of the message.
unfoldable handle_domain_error : Failure → ℕ × String
unfolding answer_among status_by_error
handle_domain_error e = answer_among e status_by_error

-- The row of the table that a class has itself.
unfoldable own_answer : ErrorClass → ℕ × String
own_answer tubedepth = (500, "internal_error")
own_answer validation = (422, "invalid_request")
own_answer not_found = (404, "not_found")
own_answer unavailable = (404, "unavailable")
own_answer upstream = (502, "upstream_error")
own_answer configuration = (503, "not_configured")
own_answer rate_limited = (429, "rate_limited")
own_answer extraction = (502, "parse_mismatch")
own_answer unauthenticated = (401, "unauthenticated")
own_answer retracted = (410, "retracted")
own_answer conflict = (409, "conflict")

-- Every class of domain error is answered by its own row of the table: none is hidden behind the
-- row of a class that it derives from.
handle_domain_error-own :
    (c : ErrorClass) (message : Message) → handle_domain_error (domain c message) ≡ own_answer c
unfolding handle_domain_error own_answer
handle_domain_error-own tubedepth message = refl
handle_domain_error-own validation message = refl
handle_domain_error-own not_found message = refl
handle_domain_error-own unavailable message = refl
handle_domain_error-own upstream message = refl
handle_domain_error-own configuration message = refl
handle_domain_error-own rate_limited message = refl
handle_domain_error-own extraction message = refl
handle_domain_error-own unauthenticated message = refl
handle_domain_error-own retracted message = refl
handle_domain_error-own conflict message = refl
