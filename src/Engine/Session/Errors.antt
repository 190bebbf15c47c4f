-- ===== src/Engine/Session/Errors.antt =====
-- What the errors of Open and Close tell their reader.
use daichod.Base.{
  if◌then◌else◌, ◌≡◌, refl, Bool, true, false, none, inl, inr, Bool-cases, arith, not,
}
use daichod.Base.Text.{Bytes}
use daichod.Exec.{Result, ok, err}
use daichod.Rpc.Error.{Exception, ShimError, shim}
use daichod.Uri.{has_supported_scheme}
use daichod.Engine.Session.{
  qof_session_new, qof_session_begin, begin_session, Session, Answer, Answers, BackendError, no_err,
  locked, readonly, perm, other_error, backend_error, is_no_err, breaks_lock, open_with, load_book,
  open_session, close_session, save_result,
}

-- The error is a ShimError whose context is the text.
abbrev pub Shows : Bytes → Exception → Type 0
Shows text x = (m : ShimError) × (x ≡ shim m) × (m.context ≡ text)

-- If a call throws, its error shows the text.
abbrev pub ShowsIfThrown : {X : Type 0} → Bytes → Result X → Type 0
ShowsIfThrown text r = (x : Exception) → r ≡ err x → Shows text x

each_error :
    (c : BackendError) (message code uri : Bytes)
    → (backend_error (record { error = c; message = message; code_text = code }) uri).context ≡ uri
unfolding backend_error
each_error no_err message code uri = refl
each_error locked message code uri = refl
each_error readonly message code uri = refl
each_error perm message code uri = refl
each_error other_error message code uri = refl

backend_error-context : (a : Answer) (uri : Bytes) → (backend_error a uri).context ≡ uri
backend_error-context a uri = each_error a.error a.message a.code_text uri

shown :
    {X : Type 0} (m : ShimError) (text : Bytes)
    → m.context ≡ text
    → ShowsIfThrown {X = X} text (err (shim m))
shown m text h x e = (m, ground (arith, e), h)

silent : {X : Type 0} (v : X) (text : Bytes) → ShowsIfThrown text (ok v)
silent v text x e = absurd (ground (arith, e))

if-Shows :
    {X : Type 0} {text : Bytes} (b : Bool) (p q : Result X × Session)
    → ShowsIfThrown text p.0
    → ShowsIfThrown text q.0
    → ShowsIfThrown text (if b then p else q).0
if-Shows true p q h k = h
if-Shows false p q h k = k

-- The parts of Open, and the save of Close.
backend_error-Shows :
    (a : Answer) (uri : Bytes) → ShowsIfThrown {X = Unit {0}} uri (err (shim (backend_error a uri)))
backend_error-Shows a uri = shown (backend_error a uri) uri (backend_error-context a uri)

load_book-Shows : (load : Answer) (s : Session) → ShowsIfThrown s.book_uri (load_book load s).0
load_book-Shows load s =
    if-Shows (is_no_err load.error) _ _ (silent tt s.book_uri) (backend_error-Shows load s.book_uri)

open_with-Shows :
    (begun load : Answer) (s : Session) → ShowsIfThrown s.book_uri (open_with begun load s).0
open_with-Shows begun load s =
    if-Shows (is_no_err begun.error) (load_book load s) _ (load_book-Shows load s)
      (backend_error-Shows begun s.book_uri)

begin_session-Shows : (a : Answers) (s : Session) → ShowsIfThrown s.book_uri (begin_session a s).0
begin_session-Shows a s =
    if-Shows (breaks_lock s a) _ _
      (open_with-Shows a.break_lock a.load (qof_session_begin a.break_lock s))
      (open_with-Shows a.begin a.load s)

save_result-Shows :
    (save : Answer) (s : Session) → ShowsIfThrown s.book_uri (save_result none save s)
save_result-Shows save s = elim (Bool-cases s.read_only) [
  | inl read_only ↦ rw read_only (silent tt s.book_uri)
  | inr writes ↦ rw writes (elim (Bool-cases (is_no_err save.error)) [
    | inl well ↦ rw well (silent tt s.book_uri)
    | inr bad ↦ rw bad (backend_error-Shows save s.book_uri)
  ])
]

-- Whatever Open throws, and whatever a Close throws that meets no fail point, has the whole book URI for its context, with the
-- credentials that it holds.
pub session_errors-Shows :
    (a : Answers) (save : Answer) (s : Session)
    → ShowsIfThrown s.book_uri (open_session a s).0
      × ShowsIfThrown s.book_uri (close_session none save s).0
unfolding open_session close_session
session_errors-Shows a save s = (
  if-Shows s.session (ok tt, s) _ (silent tt s.book_uri)
      (if-Shows (not (has_supported_scheme s.book_uri)) _ _ (shown _ s.book_uri refl)
        (begin_session-Shows a (qof_session_begin a.begin (qof_session_new s)))),
  if-Shows s.session _ (ok tt, s) (save_result-Shows save s) (silent tt s.book_uri),
)
