-- ===== src/Tests/Sample.antt =====
-- The parameters by concrete functions: an address is its text, a header map is a list of pairs in
-- which an insertion drops the earlier values of its name, and the upstream answers every request
-- with the same text and counts the requests.
use partly_proxy.Base.{
  ℕ, ◌+◌, String, Bytes, true, false, Option, none, some, List, [], ◌∷◌, ◌++◌, ◌==◌, if◌then◌else◌,
  contains, before, as_bytes, decimal, format,
}
use partly_proxy.Http.{Http, values_of}
use partly_proxy.Types.ProxyIo.{ProxyRequest, ProxyResponse, http_11}
use partly_proxy.Types.Recorded.{RecordedExchange, response}
use partly_proxy.Recorder.{Recorder}
use partly_proxy.Config.{Mode, record_mode}
use partly_proxy.Storage.Memory.{in_memory_storage}
use partly_proxy.Middleware.{proceed, ProxyMiddleware}
use partly_proxy.Forwarder.{Forwarder, Client, answered}
use partly_proxy.Replay.{ReplayState}
use partly_proxy.Upstream.{UpstreamRuntime, UpstreamRegistry}
use partly_proxy.Command.{ControlState}
use partly_proxy.Listener.{World, Ambient}

abbrev pub without : List (String × Bytes) → String → List (String × Bytes)
without [] name = []
without ((k, v) ∷ m) name = let rest = without m name in if k == name then rest else (k, v) ∷ rest

abbrev digits : Bytes → String
digits [] = ""
digits (b ∷ bytes) = format (decimal b ∷ "." ∷ digits bytes ∷ [])

abbrev pub sample_http : Http
sample_http = record {
  parse_method = λ s. some s;
  status_from_u16 = λ n. some n;
  header_name = λ b. some "x-sample";
  header_value = λ b. some b;
  value_text = λ b. some "text";
  Uri = String;
  parse_uri = λ s. some s;
  uri_text = λ s. s;
  uri_path = λ s. before b'?' s;
  uri_path_and_query = λ s. some s;
  uri_scheme = λ s. some "http";
  uri_authority = λ s. some "localhost";
  build_uri = λ s a p. some p;
  HeaderMap = List (String × Bytes);
  no_headers = [];
  insert = λ m k v. without m k ++ (k, v) ∷ [];
  remove = λ m k. without m k;
  get_all = λ m k. values_of k m;
  iter = λ m. m;
  Regex = String;
  compile = λ s. some s;
  is_match = λ r s. contains s r;
  Extensions = Unit;
  no_extensions = tt;
  digest_hex = λ b. digits b;
  utf8_lossy = λ b. digits b;
  debug_duration = λ n. decimal n;
}

abbrev pub sample_client : Client sample_http
sample_client = record {
  Net = ℕ;
  request = λ out n. (answered 200 [] http_11 (some (as_bytes "hello")), n + 1);
}

-- A middleware that hands everything on, and hides the body of a request in snapshots.
abbrev pub redactor : ProxyMiddleware sample_http
redactor = record {
  handle = λ req ctx. proceed req ctx (λ res c. (res, c));
  redact_request_for_snapshot = λ req. record req { body = [] };
  redact_response_for_snapshot = λ resp. resp;
}

abbrev pub request_to : String → ProxyRequest sample_http
request_to uri = record { method = "GET"; uri = uri; headers = []; body = []; version = http_11 }

abbrev pub response_of : ℕ → ProxyResponse sample_http
response_of status = record { status = status; headers = []; body = []; version = http_11 }

abbrev pub sample_forwarder : Forwarder
sample_forwarder = record {
  target = record {
    base_url = "http://localhost";
    host_header = none;
    connect_timeout = 1;
    request_timeout = 1;
    tls = none;
  };
  base = record { scheme = "http"; authority = "localhost"; path_prefix = "" };
}

abbrev pub runtime_of : Mode → Option ReplayState → UpstreamRuntime sample_http
runtime_of mode replay = record {
  name = "api";
  forwarder = sample_forwarder;
  middleware = redactor ∷ [];
  stubs = [];
  pause = false;
  replay = replay;
  mode = mode;
  replay_miss_handler = λ req. response_of 404;
}

abbrev pub exchange_of : String → RecordedExchange
exchange_of uri = record {
  id = 1;
  upstream = some "api";
  timestamp = 5;
  duration = 3;
  request = record { method = "GET"; uri = uri; headers = []; body = []; body_sha256 = "" };
  outcome = response (record { status = 200; headers = []; body = [] });
  labels = [];
}

abbrev pub recorder_of : List RecordedExchange → Recorder in_memory_storage
recorder_of buffer = record {
  config = record { enabled = true; max_in_memory = 2 };
  buffer = buffer;
  storage = [];
  on_insert = 0;
}

abbrev pub world_of : Mode → Option ReplayState → World sample_http sample_client in_memory_storage
world_of mode replay = record {
  runtime = runtime_of mode replay;
  recorder = recorder_of [];
  net = 0;
}

abbrev pub ambient : Ambient
ambient = record { id = 1; now = 5; elapsed = 3; stamp = record { id = 9; timestamp = 5 } }

abbrev pub api : UpstreamRuntime sample_http
api = runtime_of record_mode none

abbrev pub one_upstream : UpstreamRegistry sample_http
one_upstream = ("api", api) ∷ []

abbrev pub control : ControlState sample_http in_memory_storage
control = record { upstreams = one_upstream; recorder = recorder_of [] }
