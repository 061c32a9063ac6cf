-- ===== src/Client.antt =====
-- `clientTool` of include/client/clientapp/clientTool.hpp: the calls that parse a URL or write a
-- request at once, and those that do so as a task and hand the result to a callback as another.
pub mod Sync
pub mod Async
pub mod Send
mod Tests
use mtasc.Common.{
  ℕ, zero, suc, List, [], ◌∷◌, ◌++◌, Bytes, Bool, Option, Outcome, ok, out_of_fuel, ◌>>=◌,
}
use mtasc.Url.Params.{ParamMap}
use mtasc.Url.Basic
use mtasc.Url.Query
use mtasc.Http.{HttpMethod, Headers, create_httpv1_template}

-- `client_parser_basic_url`; `none` is the indeterminate port.
pub record BasicUrl : Type 0 where
  pub addrs_host : Bytes
  pub addrs_path : Bytes
  pub addrs_port : Option ℕ
  pub this_url_enable_tls : Bool

-- `client_parser_query_url`
pub record QueryUrl : Type 0 where
  pub addrs_host : Bytes
  pub addrs_query_path : Bytes
  pub addrs_port : Option ℕ
  pub this_url_enable_tls : Bool
  pub addrs_basic_path : Bytes
  pub full_path : Bytes
  pub query_paramter_map : ParamMap

unfoldable pub sync_parser_basic_uri : Bytes → Outcome BasicUrl
sync_parser_basic_uri url = do
  r ← Basic.parse url
  ok (record {
    addrs_host = r.addrs_host;
    addrs_path = r.addrs_path;
    addrs_port = r.addrs_port;
    this_url_enable_tls = r.is_enable_tls;
  })

unfoldable pub sync_parser_query_url : Bytes → Outcome QueryUrl
sync_parser_query_url url = do
  r ← Query.parse url
  ok (record {
    addrs_host = r.addrs_host;
    addrs_query_path = r.query_path;
    addrs_port = r.addrs_port;
    this_url_enable_tls = r.is_enable_tls;
    addrs_basic_path = r.basic_path;
    full_path = r.basic_path ++ r.query_path;
    query_paramter_map = r.query_paramter_map;
  })

-- What a client asks for, with what it passes.
pub data Request : Type 0 where
  basic_uri : Bytes → Request
  query_uri : Bytes → Request
  httpv1_tmp : Bytes → Bytes → Bytes → HttpMethod → Headers → Request

-- What a callback is called with.
pub data Reply : Type 0 where
  basic_url : BasicUrl → Reply
  query_url : QueryUrl → Reply
  template : Bytes → Reply

unfoldable pub sync_reply : Request → Outcome Reply
sync_reply (basic_uri url) = sync_parser_basic_uri url >>= λ r. ok (basic_url r)
sync_reply (query_uri url) = sync_parser_query_url url >>= λ r. ok (query_url r)
sync_reply (httpv1_tmp host path body method headers) =
    ok (template (create_httpv1_template host path body method headers))

-- A queued task of the tool: the first one of an `async…` call, or the call of its callback. The
-- number names the callback.
pub data Task : Type 0 where
  compute : ℕ → Request → Task
  callback : ℕ → Reply → Task

-- The tasks that a task queues, and the callback that it calls.
pub record Effect : Type 0 where
  pub queued : List Task
  pub called : List (ℕ × Reply)

unfoldable pub run_task : Task → Outcome Effect
run_task (compute id request) = do
  reply ← sync_reply request
  ok (record { queued = callback id reply ∷ []; called = [] })
run_task (callback id reply) = ok (record { queued = []; called = (id, reply) ∷ [] })

-- A worker that takes the tasks in their order until none is left, with fuel.
unfoldable pub drain : ℕ → List Task → Outcome (List (ℕ × Reply))
unfolding run_task
drain zero tasks = out_of_fuel
drain (suc fuel) [] = ok []
drain (suc fuel) (t ∷ tasks) =
    run_task t >>= λ e. drain fuel (tasks ++ e.queued) >>= λ l. ok (e.called ++ l)
