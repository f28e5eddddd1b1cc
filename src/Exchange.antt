-- ===== src/Exchange.antt =====
-- src/record/exchange.ts: a recorded exchange as an entry of a HAR document. The platform's URL class
-- and date format are parameters: `query_of` is `[...new URL(url).searchParams]`, `none` where it throws,
-- and `iso_date` is `toISOString`.
use cognivox_record.Prelude.{
  ℕ, ◌+◌, ◌≡◌, ◌≢◌, refl, ◌∙◌, ap, ◌&&◌, List, [], ◌∷◌, ◌++◌, Option, none, some, arith, leb, ◌==◌,
  if◌then◌else◌, All, Bool-cases, inl, inr,
}
use cognivox_record.Text.Utf8.{Text, codes}
use cognivox_record.Text.Words.{trim, equal, equal→eq, equal_refl}
use cognivox_record.Dict.{Dict}

pub data Direction : Type 0 where
  ingress egress : Direction

-- The moment of the start is in milliseconds.
pub record RecordedExchange : Type 0 where
  pub direction : Direction
  pub method : Text
  pub url : Text
  pub request_headers : Dict Text
  pub request_body : Option Text
  pub request_bytes : ℕ
  pub status : ℕ
  pub status_text : Text
  pub response_headers : Dict Text
  pub response_body : Option Text
  pub response_bytes : ℕ
  pub started_at : ℕ
  pub duration_ms : ℕ

pub record HarNameValue : Type 0 where
  pub name : Text
  pub value : Text

pub record HarPostData : Type 0 where
  pub mime_type : Text
  pub text : Text

pub record HarRequest : Type 0 where
  pub method : Text
  pub url : Text
  pub headers : List HarNameValue
  pub query_string : List HarNameValue
  pub body_size : ℕ
  pub post_data : Option HarPostData

-- `text` is left out of the content where it is none.
pub record HarResponse : Type 0 where
  pub status : ℕ
  pub status_text : Text
  pub headers : List HarNameValue
  pub content_size : ℕ
  pub mime_type : Text
  pub text : Option Text
  pub redirect_url : Text
  pub body_size : ℕ

-- The fields that do not depend on the exchange (versions, cookies, -1 sizes, cache) are left out.
pub record HarEntry : Type 0 where
  pub started_date_time : Text
  pub time : ℕ
  pub request : HarRequest
  pub response : HarResponse
  pub wait : ℕ
  pub direction : Direction

unfoldable pub to_lower : Text → Text
to_lower [] = []
to_lower (c ∷ t) = (if leb b'A' c && leb c b'Z' then c + 32 else c) ∷ to_lower t

name_values : Dict Text → List HarNameValue
name_values [] = []
name_values ((k, v) ∷ m) = record { name = k; value = v } ∷ name_values m

query_string_of : Option (Dict Text) → List HarNameValue
query_string_of none = []
query_string_of (some q) = name_values q

unfoldable pub header_value : Dict Text → Text → Text
unfolding to_lower
header_value [] name = []
header_value ((k, v) ∷ m) name =
    let rest = header_value m name in if equal (to_lower k) (to_lower name) then v else rest

before_semicolon : Text → Text
before_semicolon [] = []
before_semicolon (c ∷ t) = let rest = before_semicolon t in if c == b';' then [] else c ∷ rest

-- `(contentType || '').split(';')[0].trim().toLowerCase()`
unfoldable pub base_mime_type : Text → Text
unfolding before_semicolon
base_mime_type t = to_lower (trim (before_semicolon t))

or_plain : Text → Text
or_plain [] = codes "text/plain"
or_plain (c ∷ t) = c ∷ t

-- An empty body is none.
post_data_of : Dict Text → Option Text → Option HarPostData
post_data_of headers none = none
post_data_of headers (some []) = none
post_data_of headers (some (c ∷ t)) = some (record {
  mime_type = or_plain (base_mime_type (header_value headers (codes "content-type")));
  text = c ∷ t;
})

module _ (query_of : Text → Option (Dict Text)) (iso_date : ℕ → Text) where
  unfoldable pub to_har_entry : RecordedExchange → HarEntry
  unfolding name_values query_string_of post_data_of or_plain
  to_har_entry e = record {
    started_date_time = iso_date e.started_at;
    time = e.duration_ms;
    request = record {
      method = e.method;
      url = e.url;
      headers = name_values e.request_headers;
      query_string = query_string_of (query_of e.url);
      body_size = e.request_bytes;
      post_data = post_data_of e.request_headers e.request_body;
    };
    response = record {
      status = e.status;
      status_text = e.status_text;
      headers = name_values e.response_headers;
      content_size = e.response_bytes;
      mime_type = base_mime_type (header_value e.response_headers (codes "content-type"));
      text = e.response_body;
      redirect_url = header_value e.response_headers (codes "location");
      body_size = e.response_bytes;
    };
    wait = e.duration_ms;
    direction = e.direction;
  }

  -- The entries of the document.
  unfoldable pub to_har : List RecordedExchange → List HarEntry
  to_har [] = []
  to_har (e ∷ es) = to_har_entry e ∷ to_har es

abbrev pub NotSemicolon : ℕ → Type 0
NotSemicolon c = c ≢ b';'

before_semicolon-append :
    (t rest : Text) → All NotSemicolon t → before_semicolon (t ++ (b';' ∷ rest)) ≡ t
unfolding before_semicolon
before_semicolon-append [] rest h = refl
before_semicolon-append (c ∷ t) rest h = ground (arith, before_semicolon-append t rest h.1)

header_value_first :
    (k v name : Text) (m : Dict Text)
    → to_lower k ≡ to_lower name
    → header_value ((k, v) ∷ m) name ≡ v
unfolding header_value
header_value_first k v name m h =
    ap (λ b. if b then v else header_value m name)
      (ap (λ z. equal z (to_lower name)) h ∙ equal_refl (to_lower name))

-- The key of a header that stands for another name.
abbrev pub IsOther : Text → Text × Text → Type 0
IsOther name (k, v) = to_lower k ≢ to_lower name

header_value_behind :
    (name : Text) (before m : Dict Text)
    → All (IsOther name) before
    → header_value (before ++ m) name ≡ header_value m name
unfolding header_value
header_value_behind name [] m h = refl
header_value_behind name ((k, v) ∷ before) m (other, others) =
    elim (Bool-cases (equal (to_lower k) (to_lower name))) [
      | inl same ↦ absurd (other (equal→eq (to_lower k) (to_lower name) same))
      | inr differ ↦ rw differ (header_value_behind name before m others)
    ]

-- A response whose first content type, at any place among the headers and under any spelling of the
-- header's case, has parameters, is entered with the bare media type in lower case, and so compares
-- equal to `application/json`.
pub mime_type_bare :
    (query_of : Text → Option (Dict Text)) (iso_date : ℕ → Text) (e : RecordedExchange)
    (name t rest : Text) (before others : Dict Text)
    → e.response_headers ≡ before ++ ((name, t ++ (b';' ∷ rest)) ∷ others)
    → All (IsOther (codes "content-type")) before
    → to_lower name ≡ to_lower (codes "content-type")
    → All NotSemicolon t
    → (to_har_entry query_of iso_date e).response.mime_type ≡ to_lower (trim t)
unfolding to_har_entry base_mime_type
mime_type_bare query_of iso_date e name t rest before others h b k s =
    let first = (name, t ++ (b';' ∷ rest)) ∷ others in
    ap (λ m. base_mime_type (header_value m (codes "content-type"))) h
    ∙ ap base_mime_type (header_value_behind (codes "content-type") before first b)
    ∙ ap base_mime_type
        (header_value_first name (t ++ (b';' ∷ rest)) (codes "content-type") others k)
    ∙ ap (λ z. to_lower (trim z)) (before_semicolon-append t rest s)
