-- ===== src/RequestLog/Handler.antt =====
-- `log_requests` of src/request_log.rs: the middleware around every request, with the scanner guard.
use Prim.Native.String.{String}
use hifi_api_rust.Base.{
  ℕ, zero, suc, ◌*◌, Bool, true, false, ◌&&◌, List, [], Option, none, some, leb, if◌then◌else◌,
}
use hifi_api_rust.Lockout.{IpAddr, GuardState}
use hifi_api_rust.Playback.Job.{LoggedAccount}
use hifi_api_rust.ScannerGuard
use hifi_api_rust.RequestLog.Entry.{LogEntry}
use hifi_api_rust.RequestLog.Log.{RequestLog, record_entry}
use hifi_api_rust.RequestLog.Paths.{should_log_path, normalize_path, extract_detail}

abbrev pub max_error_body : ℕ
max_error_body = 16 * 1024

-- `chars().take(n)`
abbrev pub take_chars : ℕ → String → String
take_chars zero s = ""
take_chars (suc n) String.[] = ""
take_chars (suc n) (String.◌∷◌ c s) = String.◌∷◌ c (take_chars n s)

-- What the middleware reads of an answer: its status, the `X-Cache` header, the mark of a refusal, the
-- size of a body that is already buffered, and what reading that body gives.
pub record Answer : Type 0 where
  pub status : ℕ
  pub cache : String
  pub rejected : Bool
  pub size : Option ℕ
  pub body : Option String

-- `take_error_detail`. `json_detail` is the `detail` text of a JSON body, empty if it has none, and
-- `trimmed` the plain text of another body.
unfoldable pub take_error_detail :
    (json_detail : String → Option String) (trimmed : String → String) → Answer → Answer × String
take_error_detail json_detail trimmed r = elim r.size [
  | none ↦ (r, "")
  | some size ↦
      if leb 400 r.status && leb size max_error_body
      then elim r.body [
        | none ↦ (
          record {
            status = 502;
            cache = "";
            rejected = false;
            size = some 25;
            body = some "Upstream body read failed";
          },
          "",
        )
        | some text ↦ (
          r,
          take_chars 300 (elim (json_detail text) [ none ↦ trimmed text | some detail ↦ detail ]),
        )
      ]
      else (r, "")
]

pub record Incoming : Type 0 where
  pub method : String
  pub path : List ℕ
  pub query : Option (List ℕ)
  pub ip : IpAddr
  pub ip_text : String
  pub start : ℕ
  -- When the answer is logged: the seconds of the clock, and the time since the start.
  pub ts : ℕ
  pub latency_ms : ℕ

abbrev pub blocked : Answer
blocked = record {
  status = 403;
  cache = "";
  rejected = true;
  size = some 67;
  body = some "{\"detail\":\"IP temporarily blocked after repeated scanner requests\"}";
}

pub record Middleware : Type 0 where
  pub scanner_guard : GuardState
  pub request_log : RequestLog

module _ (decode : List ℕ → List ℕ) (parse : List ℕ → List (List ℕ × List ℕ))
    (json_detail : String → Option String) (trimmed : String → String) where
  abbrev pub entry_of : Incoming → Answer → List LoggedAccount → String → LogEntry
  entry_of q answer accounts error = record {
    ts = q.ts;
    method = q.method;
    path = normalize_path q.path;
    detail = extract_detail parse q.path q.query;
    status = answer.status;
    latency_ms = q.latency_ms;
    client_ip = q.ip_text;
    cache = answer.cache;
    accounts = accounts;
    rejected = answer.rejected;
    error = error;
  }

  -- The part after the answer.
  unfoldable pub log_answer :
      Incoming → Answer → List LoggedAccount → RequestLog → Answer × RequestLog
  unfolding should_log_path take_error_detail record_entry normalize_path extract_detail
  log_answer q r accounts log =
      if should_log_path q.path
      then (let (answer, error) = take_error_detail json_detail trimmed r in
          (answer, record_entry (entry_of q answer accounts error) log))
      else (r, log)

  -- `log_requests`; `next` is the rest of the server, on its own state: what it answers, and the
  -- accounts it selects.
  unfoldable pub log_requests :
      {S : Type 0}
      → Incoming
      → (S → S × (Answer × List LoggedAccount))
      → S
      → Middleware
      → S × Middleware × Answer
  unfolding ScannerGuard.check log_answer
  log_requests q next s m =
      let (guard, retry_after) = ScannerGuard.check decode q.ip q.path q.start m.scanner_guard in
      elim retry_after [
        | some seconds ↦
            let (r, log) = log_answer q blocked [] m.request_log in
            (s, record { scanner_guard = guard; request_log = log }, r)
        | none ↦
            let (t, (answer, accounts)) = next s in
            let (r, log) = log_answer q answer accounts m.request_log in
            (t, record { scanner_guard = guard; request_log = log }, r)
      ]
