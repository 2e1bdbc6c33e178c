-- ===== src/Store/S3.antt =====
-- objstore/s3.go: `S3`, an object store over a client of the AWS SDK, which is a parameter. What an
-- error is to the source, its text and whether it is a `types.NoSuchKey`, is all that is kept of it.
pub mod Texts
pub mod Service
pub mod Laws
mod Tests
use opendata_go.Base.{
  Bool, true, false, Option, none, some, List, [], ◌∷◌, ◌++◌, ◌&&◌, ◌||◌, ◌==◌, ◌⊎◌, inl, inr,
  if◌then◌else◌, Outcome, ok, err, not_found, precondition_failed, transport, ℕ,
}
use opendata_go.Bytes.{Bytes}
use opendata_go.Store.{Version, GetResult, ObjectStore}

pub record S3Error : Type 0 where
  pub is_no_such_key : Bool
  pub message : Bytes

-- The body is none where reading it fails.
pub record GetObjectOutput : Type 0 where
  pub body : Option Bytes
  pub etag : Option Bytes

pub record PutObjectInput : Type 0 where
  pub bucket : Bytes
  pub key : Bytes
  pub body : Bytes
  pub if_none_match : Option Bytes
  pub if_match : Option Bytes

pub record S3Client (S : Type 0) : Type 0 where
  pub get_object : Bytes → Bytes → S → S × (S3Error ⊎ GetObjectOutput)
  pub put_object : PutObjectInput → S → S × Option S3Error
  pub delete_object : Bytes → Bytes → S → S × Option S3Error

-- `strings.Contains`.
unfoldable pub has_prefix : Bytes → Bytes → Bool
has_prefix s [] = true
has_prefix [] (x ∷ xs) = false
has_prefix (b ∷ s) (x ∷ xs) = (b == x) && has_prefix s xs

unfoldable pub contains : Bytes → Bytes → Bool
unfolding has_prefix
contains [] sub = has_prefix [] sub
contains (b ∷ s) sub = has_prefix (b ∷ s) sub || contains s sub

-- "NoSuchKey" and "StatusCode: 4", for "StatusCode: 404" and "StatusCode: 412".
abbrev pub no_such_key : Bytes
no_such_key = b'N' ∷ b'o' ∷ b'S' ∷ b'u' ∷ b'c' ∷ b'h' ∷ b'K' ∷ b'e' ∷ b'y' ∷ []

abbrev pub status_code : Bytes → Bytes
status_code digits =
    (b'S' ∷ b't' ∷ b'a' ∷ b't' ∷ b'u' ∷ b's' ∷ b'C' ∷ b'o' ∷ b'd' ∷ b'e' ∷ b':' ∷ b' ' ∷ [])
    ++ digits

-- "PreconditionFailed".
abbrev pub precondition_failed_text : Bytes
precondition_failed_text =
    b'P' ∷ b'r' ∷ b'e' ∷ b'c' ∷ b'o' ∷ b'n' ∷ b'd' ∷ b'i' ∷ b't' ∷ b'i' ∷ b'o' ∷ b'n' ∷ b'F' ∷ b'a'
    ∷ b'i' ∷ b'l' ∷ b'e' ∷ b'd' ∷ []

-- "ConditionalRequestConflict".
abbrev pub conditional_request_conflict : Bytes
conditional_request_conflict =
    b'C' ∷ b'o' ∷ b'n' ∷ b'd' ∷ b'i' ∷ b't' ∷ b'i' ∷ b'o' ∷ b'n' ∷ b'a' ∷ b'l' ∷ b'R' ∷ b'e' ∷ b'q'
    ∷ b'u' ∷ b'e' ∷ b's' ∷ b't' ∷ b'C' ∷ b'o' ∷ b'n' ∷ b'f' ∷ b'l' ∷ b'i' ∷ b'c' ∷ b't' ∷ []

-- "At least one of the pre-conditions".
abbrev pub at_least_one : Bytes
at_least_one =
    b'A' ∷ b't' ∷ b' ' ∷ b'l' ∷ b'e' ∷ b'a' ∷ b's' ∷ b't' ∷ b' ' ∷ b'o' ∷ b'n' ∷ b'e' ∷ b' ' ∷ b'o'
    ∷ b'f' ∷ b' ' ∷ b't' ∷ b'h' ∷ b'e' ∷ b' ' ∷ b'p' ∷ b'r' ∷ b'e' ∷ b'-' ∷ b'c' ∷ b'o' ∷ b'n'
    ∷ b'd' ∷ b'i' ∷ b't' ∷ b'i' ∷ b'o' ∷ b'n' ∷ b's' ∷ []

unfoldable pub is_missing : S3Error → Bool
unfolding contains
is_missing e =
    e.is_no_such_key
    || (contains e.message no_such_key
        || contains e.message (status_code (b'4' ∷ b'0' ∷ b'4' ∷ [])))

unfoldable pub is_refused : S3Error → Bool
unfolding contains
is_refused e =
    contains e.message precondition_failed_text
    || (contains e.message (status_code (b'4' ∷ b'1' ∷ b'2' ∷ []))
        || (contains e.message conditional_request_conflict || contains e.message at_least_one))

abbrev pub etag_or_empty : Option Bytes → Bytes
etag_or_empty none = []
etag_or_empty (some etag) = etag

-- `Get` behind the call; an error that the source hands on is the transport's.
unfoldable pub read_answer : Option Bytes → Option Bytes → Outcome GetResult
read_answer none etag = err transport
read_answer (some read) etag =
    ok (record { bytes = read; version = record { etag = etag_or_empty etag } })

unfoldable pub get_answer : S3Error ⊎ GetObjectOutput → Outcome GetResult
unfolding is_missing read_answer
get_answer (inl e) = if is_missing e then err not_found else err transport
get_answer (inr out) = read_answer out.body out.etag

unfoldable pub conditional_answer : Option S3Error → Outcome (Unit {0})
unfolding is_refused
conditional_answer none = ok tt
conditional_answer (some e) = if is_refused e then err precondition_failed else err transport

abbrev pub plain_answer : Option S3Error → Outcome (Unit {0})
plain_answer none = ok tt
plain_answer (some e) = err transport

abbrev pub conditional_input : Bytes → Bytes → Bytes → Option Version → PutObjectInput
conditional_input bucket path written none = record {
  bucket = bucket;
  key = path;
  body = written;
  if_none_match = some (b'*' ∷ []);
  if_match = none;
}
conditional_input bucket path written (some version) = record {
  bucket = bucket;
  key = path;
  body = written;
  if_none_match = none;
  if_match = some version.etag;
}

-- `NewS3`, with its methods.
module _ {S : Type 0} (client : S3Client S) (bucket : Bytes) where
  unfoldable pub get : Bytes → S → S × Outcome GetResult
  unfolding get_answer
  get path s = ((client.get_object bucket path s).0, get_answer (client.get_object bucket path s).1)

  unfoldable pub put : Bytes → Bytes → S → S × Outcome (Unit {0})
  put path written s =
      let input : PutObjectInput = record {
        bucket = bucket;
        key = path;
        body = written;
        if_none_match = none;
        if_match = none;
      } in
      ((client.put_object input s).0, plain_answer (client.put_object input s).1)

  unfoldable pub put_if_match : Bytes → Bytes → Option Version → S → S × Outcome (Unit {0})
  unfolding conditional_answer
  put_if_match path written version s =
      let input = conditional_input bucket path written version in
      ((client.put_object input s).0, conditional_answer (client.put_object input s).1)

  unfoldable pub delete : Bytes → S → S × Outcome (Unit {0})
  delete path s =
      ((client.delete_object bucket path s).0, plain_answer (client.delete_object bucket path s).1)

  abbrev pub s3_store : ObjectStore S
  s3_store = record { get = get; put = put; put_if_match = put_if_match; delete = delete }
