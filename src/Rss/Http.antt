-- ===== src/Rss/Http.antt =====
-- internal/rss: replies of servers, errors, and the retry of doReadRequest. client.Do is an argument:
-- `send n` is the result of its call number n. What is left of a URL is an argument too: parsing and
-- printing belong to net/url.
use aninode.Prelude.{
  ℕ, Bool, true, ◌||◌, if◌then◌else◌, ◌==◌, Text, codes, Option, none, some, ◌≡◌, refl, ◌⊎◌, inl,
  inr,
}
use aninode.ReleaseFilter.{is_empty}

-- The errors: HTTPStatusError, a url.Error of net/http, a body that is too large, and those of the
-- context, of a decoder and of torrentmeta.
pub data Failure : Type 0 where
  http_status : (resource : Text) (code : ℕ) (retry_at : ℕ) → Failure
  request : (op url err : Text) → Failure
  too_large : (limit : ℕ) → Failure
  cancelled unsupported_root bad_torrent : Failure
  other : Text → Failure

pub data Outcome {ℓ} (A : Type ℓ) : Type ℓ where
  done : A → Outcome A
  failed : Failure → Outcome A

-- A reply; `body` is what io.ReadAll gives of it.
pub record Response : Type 0 where
  pub status : ℕ
  -- Header.Get
  pub header : Text → Text
  pub body : Outcome Text

abbrev pub too_many_requests : ℕ
too_many_requests = 429

-- transientGatewayStatus
unfoldable pub transient_gateway_status : ℕ → Bool
transient_gateway_status status = status == 502 || status == 503 || status == 504

-- doReadRequest; `ctx` is the error with which the context ends before the timer does, if it does.
unfoldable pub do_read_request : Option Failure → (ℕ → Outcome Response) → Outcome Response
do_read_request ctx send = elim (send 0) [
  | failed e ↦ failed e
  | done response ↦
      if transient_gateway_status response.status
      then elim ctx [ some e ↦ failed e | none ↦ send 1 ]
      else done response
]

-- url.URL as far as redactURL changes it; `rest` stands for the other fields.
pub record Url : Type 0 where
  pub user : Option Text
  pub raw_query : Text
  pub force_query : Bool
  pub rest : Text

module _ (parse_url : Text → Option Url) (print_url : Url → Text) where
  -- if u.User != nil
  unfoldable pub redact_user : Url → Url
  redact_user u = elim u.user [
    | some name ↦ record u { user = some (codes "[redacted]") }
    | none ↦ u
  ]

  -- if u.RawQuery != ""
  unfoldable pub redact_query : Url → Url
  redact_query u =
      if is_empty u.raw_query
      then u
      else record u { raw_query = codes "[redacted]"; force_query = true }

  -- redactURL
  unfoldable pub redact_url : Text → Text
  redact_url raw = elim (parse_url raw) [
    | none ↦ codes "[redacted URL]"
    | some u ↦ print_url (redact_query (redact_user u))
  ]

  -- redactRequestError
  unfoldable pub redact_request_error : Failure → Failure
  redact_request_error (request op url err) = request op (redact_url url) err
  redact_request_error e = e

pub Outcome-cases {ℓ} :
    {A : Type ℓ} (o : Outcome A) → ((a : A) × (o ≡ done a)) ⊎ ((e : Failure) × (o ≡ failed e))
Outcome-cases (done a) = inl (a, refl)
Outcome-cases (failed e) = inr (e, refl)
