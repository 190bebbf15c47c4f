-- ===== src/Rpc/Session.antt =====
-- src/rpc/session_service.h, src/rpc/session_service.cpp and src/rpc/rpc_util.h: RunRpc, and the handlers of the session.
use daichod.Base.{ℕ, Bool, ◌||◌, ◌-◌, ◌^◌, ltb, Option, List, if◌then◌else◌}
use daichod.Base.Int.{ℤ, pos, negsuc}
use daichod.Base.Text.{Bytes}
use daichod.Exec.{Result, ok, err, aborted, Exec, ◌>>◌}
use daichod.Engine.Objects.{Objects}
use daichod.Engine.Session.{Session, Answer, Answers, open_session, close_session}
use daichod.Journal
use daichod.Journal.{Disk, IndeterminateEntry}
use daichod.Rpc.Error.{Exception, ErrorDetail, Status, status_from_exception}
use daichod.Rpc.Handler.{require_book}
use daichod.Rpc.Plan.Types.{and_then}
use daichod.Uri.{redact_uri}

-- What a client sees of a call: the response, the status that is not OK, or a connection that breaks.
pub data Reply (AnyMessage R : Type 0) : Type 0 where
  answered : R → Reply AnyMessage R
  failed : Status AnyMessage → Reply AnyMessage R
  lost : Reply AnyMessage R

module _ {AnyMessage : Type 0} (pack_from : ErrorDetail → Option AnyMessage) where
  abbrev reply_of : {R : Type 0} → Result R → Reply AnyMessage R
  reply_of (ok r) = answered r
  reply_of (err x) = failed (status_from_exception pack_from x)
  reply_of aborted = lost

  -- RunRpc: a task whose exceptions become statuses.
  unfoldable pub run_rpc : {St R : Type 0} → Exec St R → St → Reply AnyMessage R × St
  run_rpc task s = (reply_of (task s).0, (task s).1)

-- shim::BookInfo, whose default currency is left unset, and shim::PingResponse
pub record BookInfo : Type 0 where
  pub root_account_guid : Bytes
  pub backend_uri : Bytes
  pub engine_version : Bytes
  pub shim_version : Bytes
  pub read_only : Bool

pub record PingResponse : Type 0 where
  pub queue_depth : ℤ
  pub uptime_seconds : ℤ
  pub book_open : Bool

-- static_cast<int64_t> of a size_t
unfoldable pub int64_of : ℕ → ℤ
int64_of n = if ltb n (2 ^ 63) then pos n else negsuc (2 ^ 64 - 1 - n)

module _ {B G C A T S P : Type 0} (e : Objects B G C A T S P) (engine_version shim_version : Bytes)
    (is_readonly : B → Bool) where
  -- FillBookInfo
  unfoldable pub fill_book_info : B → Session → Result BookInfo
  fill_book_info b session = and_then (require_book session b) (λ _. ok (record {
    root_account_guid = e.guid_to_string (e.account_guid (e.root_account b));
    backend_uri = redact_uri session.book_uri;
    engine_version = engine_version;
    shim_version = shim_version;
    read_only = session.read_only || is_readonly b;
  }))

  -- GetBookInfo
  abbrev pub get_book_info : B → Exec Session BookInfo
  get_book_info b session = (fill_book_info b session, session)

  -- OpenBook: `b` is the book of the session once it is open.
  unfoldable pub open_book : Answers → B → Exec Session BookInfo
  open_book answers b = open_session answers >> get_book_info b

-- CloseBook
abbrev pub close_book : Option Exception → Answer → Exec Session (Unit {0})
close_book fail_point save = close_session fail_point save

-- Ping, which runs on the calling thread.
abbrev pub ping : ℕ → ℤ → Session → PingResponse
ping depth uptime session = record {
  queue_depth = int64_of depth;
  uptime_seconds = uptime;
  book_open = session.open_flag;
}

-- ListIndeterminateMutations, whose entries are the journal's.
abbrev pub list_indeterminate_mutations : Exec Disk (List IndeterminateEntry)
list_indeterminate_mutations = Journal.list_indeterminate
