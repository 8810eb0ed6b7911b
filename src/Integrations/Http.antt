-- ===== src/Integrations/Http.antt =====
-- integrations/http/http.go: a request with retries. The client, the bodies and the headers, and the
-- parsing of HTTP dates, come from package net/http: they are the operations of `HttpApi`. The time
-- left until a date is read when the error is made.
pub mod Attempts
use recourse.Common.{
  ℕ, ◌*◌, ◌+◌, ◌-◌, ◌%◌, ◌^◌, String, Bool, true, false, ◌≡◌, refl, ◌∷◌, Option, none, some, arith,
  if◌then◌else◌, ◌&&◌, ltb, leb, zero, suc, ◌==◌,
}
use Prim.Native.Char.{code}
use recourse.Common.Int.{wrap_64, ℤ, pos, negsuc, leb_ℤ, ltb_ℤ}
use recourse.Common.Text.{is_empty}
use recourse.Common.Float.{Float}
use recourse.Policy.{PolicyKey}
use recourse.Errors.{Err, new, http, http_wrapping}
use recourse.Classify.Http.{HttpInfo, as_http_error}
use recourse.Observe.{Timeline}
use recourse.Observe.Capture.{Context, record_timeline, timeline}
use recourse.Retry.{Exit, returned, Env, Config, M, ◌>>=◌, pure, effect}
use recourse.Retry.Full.{Shared}
use recourse.Retry.Call.{CaptureMemory, Operation, Groups, zero_timeline, do_value}

-- `req.Body`: nil, `http.NoBody`, or a body.
pub data RequestBody (B : Type 0) : Type 0 where
  nil_body http_no_body : RequestBody B
  with_body : B → RequestBody B

-- What `GetBody` and `client.Do` return.
pub data Reply (A : Type 0) : Type 0 where
  got : A → Reply A
  failed_with : Err → Reply A

pub record Request (B W : Type 0) : Type 0 where
  pub method : String
  pub body : RequestBody B
  pub get_body : Option (W → Reply (RequestBody B) × W)

pub record Response (H B : Type 0) : Type 0 where
  pub status_code : ℤ
  pub header : Option H
  pub response_body : B

pub record HttpApi (H B W : Type 0) : Type 0 where
  pub client_do : Context → Request B W → W → Reply (Response H B) × W
  -- `io.CopyN(io.Discard, body, n)` and `body.Close()`
  pub copy_n : B → ℕ → W → W
  pub close : B → W → W
  -- `Header.Get`
  pub header_get : H → String → String
  -- `http.ParseTime` and then `time.Until`
  pub until_date : String → W → Option ℤ

-- `StatusError`.
pub record StatusError (H : Type 0) : Type 0 where
  pub status : ℤ
  pub of_method : String
  pub headers : Option H
  pub cause : Option Err

-- The number that decimal digits after `n` write.
digits_from : ℕ → String → Option ℕ
digits_from n String.[] = some n
digits_from n (String.◌∷◌ c s) =
    let rest = digits_from (n * 10 + (code c - b'0')) s in
    if leb b'0' (code c) && leb (code c) b'9' then rest else none

unsigned : String → Option ℕ
unfolding digits_from
unsigned s = if is_empty s then none else digits_from 0 s

-- A magnitude with its sign, within the range of `int`.
signed : Bool → Option ℕ → Option ℤ
signed negative none = none
signed false (some n) = if ltb n (2 ^ 63) then some (pos n) else none
signed true (some zero) = some (pos 0)
signed true (some (suc n)) = if ltb n (2 ^ 63) then some (negsuc n) else none

-- `strconv.Atoi`; `none` is an error.
unfoldable pub atoi : String → Option ℤ
unfolding unsigned signed
atoi String.[] = none
atoi (String.◌∷◌ c s) =
    if code c == b'-'
    then signed true (unsigned s)
    else if code c == b'+'
    then signed false (unsigned s)
    else signed false (unsigned (String.◌∷◌ c s))

-- `time.Duration(secs) * time.Second` in 64 bits.
unfoldable pub seconds : ℕ → ℤ
unfolding wrap_64
seconds secs = wrap_64 (pos (secs * 1000000000))

module _ {H B W : Type 0} (api : HttpApi H B W) where
  -- The part of `RetryAfter` below `Try HTTP date`.
  from_date : Option ℤ → Option ℤ
  from_date none = none
  from_date (some d) = if ltb_ℤ d (pos 0) then some (pos 0) else some d

  -- The part of `RetryAfter` below the test for an empty text.
  from_seconds : Option ℤ → String → W → Option ℤ
  from_seconds (some (pos secs)) s w = some (seconds secs)
  from_seconds (some (negsuc n)) s w = from_date (api.until_date s w)
  from_seconds none s w = from_date (api.until_date s w)

  -- `StatusError.RetryAfter`; `none` is `(0, false)`.
  unfoldable pub retry_after : StatusError H → W → Option ℤ
  unfolding from_date from_seconds
  retry_after e w = elim e.headers [
    | none ↦ none
    | some h ↦
        let s = api.header_get h "Retry-After" in
        if is_empty s then none else from_seconds (atoi s) s w
  ]

  -- A `*StatusError` as an error: with `HTTPStatusCode`, `HTTPMethod`, `RetryAfter` and `Unwrap`.
  unfoldable pub as_error : StatusError H → W → Err
  as_error e w = elim e.cause [
    | none ↦ http e.status e.of_method (retry_after e w)
    | some c ↦ http_wrapping e.status e.of_method (retry_after e w) c
  ]

  -- From `client.Do` to the end of the operation.
  unfoldable pub after_do :
      Request B W → Reply (Response H B) × W → Option (Response H B) × Option Err × W
  after_do req (failed_with e, w) = (
    none,
    some (
        as_error (record { status = pos 0; of_method = req.method; headers = none; cause = some e })
          w),
    w,
  )
  after_do req (got resp, w) =
      if leb_ℤ (pos 200) resp.status_code && ltb_ℤ resp.status_code (pos 300)
      then (some resp, none, w)
      else (let w' = api.close resp.response_body (api.copy_n resp.response_body 4096 w) in
          (
            none,
            some (
                as_error
                  (record {
                    status = resp.status_code;
                    of_method = req.method;
                    headers = resp.header;
                    cause = none;
                  })
                  w'),
            w',
          ))

  -- `outReq.Body = body` and `client.Do(outReq)`, where the body was got.
  unfoldable pub with_clone :
      Context → Request B W → Reply (RequestBody B) × W → Option (Response H B) × Option Err × W
  with_clone ctx req (failed_with e, w) = (none, some e, w)
  with_clone ctx req (got b, w) = after_do req (api.client_do ctx (record req { body = b }) w)

  -- The operation `op` of `DoHTTP`.
  unfoldable pub attempt_op : Request B W → Context → W → Option (Response H B) × Option Err × W
  unfolding with_clone
  attempt_op req ctx w = elim req.get_body [
    | none ↦ after_do req (api.client_do ctx req w)
    | some get ↦ with_clone ctx req (get w)
  ]

  abbrev pub op : Request B W → Operation (Option (Response H B)) W
  op req ctx n w = let (v, e, w') = attempt_op req ctx w in (returned (v, e), w')

-- `req.Body != nil && req.Body != http.NoBody`
unfoldable pub has_body : {B : Type 0} → RequestBody B → Bool
has_body nil_body = false
has_body http_no_body = false
has_body (with_body b) = true

abbrev is_none : {A : Type 0} → Option A → Bool
is_none none = true
is_none (some a) = false

module _ {F H Y W B C : Type 0} ⦃fl : Float F⦄ (api : HttpApi H Y W)
    (env : Env F (Option (Response H Y)) W B C) (cfg : Config B C) (sh : Shared W)
    (mem : CaptureMemory W) (groups : Groups F (Option (Response H Y)) W B C) (is_noop : Bool)
    (key : PolicyKey) (req : Request Y W) where
  -- `observe.RecordTimeline(ctx)`
  open_capture : Context → M W (Context × ℕ)
  open_capture ctx = effect (λ w.
      let (ctx', a, cs) = record_timeline ctx (mem.captures w) in
      ((ctx', a), mem.with_captures cs w))

  abbrev or_zero : Option Timeline → Timeline
  or_zero none = zero_timeline
  or_zero (some tl) = tl

  read_capture :
      ℕ → Option (Response H Y) × Option Err → M W (Option (Response H Y) × Timeline × Option Err)
  read_capture a (v, e) = effect (λ w. ((v, or_zero (timeline (some a) (mem.captures w)), e), w))

  -- `DoHTTP`.
  unfoldable pub do_http : Context → M W (Option (Response H Y) × Timeline × Option Err)
  unfolding open_capture read_capture
  do_http ctx =
      if has_body req.body && is_none req.get_body
      then pure (
        none,
        zero_timeline,
        some (new "recourse: request body is not replayable (GetBody is nil)"),
      )
      else open_capture ctx >>= λ c.
          do_value env cfg sh mem groups is_noop key (op api req) c.0 >>= read_capture c.1
